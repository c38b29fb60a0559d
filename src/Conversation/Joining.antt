-- ===== src/Conversation/Joining.antt =====
-- How an invited user joins a group.
use messinger_backend.Prelude.{
  ◌≡◌, subst, Bool, true, not, ◌&&◌, none, some, [], ◌∷◌, arith, any, is_some, Option-cases, inl,
  inr,
}
use messinger_backend.Prelude.Rows.{any-append, any-map_where_hit}
use messinger_backend.Types.{Uuid}
use messinger_backend.Exceptions.{IsOk}
use messinger_backend.Entities.{ConversationMember}
use messinger_backend.Orm.{Orm, IsOrm, Found, orm-eq-table_orm}
use messinger_backend.Packages.{Packages}
use messinger_backend.Store.{Store}
use messinger_backend.Store.Constraints.{same_member}
use messinger_backend.Conversation.Invitation.{accept_group_invitation}
use messinger_backend.Conversation.Effects.Membership.{joined}

-- The user is a member of the conversation who has not left it.
abbrev pub active_member : Uuid → Uuid → ConversationMember → Bool
active_member c u m = same_member c u m && not (is_some m.soft_deleted_at)

module _ ⦃o : Orm⦄ ⦃k : Packages⦄ where
  -- When accepting an invitation is fulfilled, the user is an active member of the group.
  pub accept_joins :
      (l : IsOrm o) (c u : Uuid) (s : Store)
      → IsOk (accept_group_invitation c u s).0
      → any (active_member c u) (accept_group_invitation c u s).1.members ≡ true
  accept_joins l = rw (orm-eq-table_orm l) (
      unfold accept_group_invitation in
      λ c u s. elim (Option-cases (o.find_one _ (same_member c u) s.members)) [
        | inl e ↦ ground (arith, any-append (active_member c u) s.members (joined s c u ∷ []))
        | inr (m, e) ↦
            let found =
              subst (Found (same_member c u) s.members) e
                (l.find_one-Found _ (same_member c u) s.members) in
            ground (
              arith,
              any-append (active_member c u) s.members (joined s c u ∷ []),
              any-map_where_hit (active_member c u) (same_member c u)
                  (λ m. record m { soft_deleted_at = none; restored_at = some s.clock }) s.members m
                  found.1 found.0 (ground (arith, found.0)),
            )
      ])
