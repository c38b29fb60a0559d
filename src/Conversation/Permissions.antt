-- ===== src/Conversation/Permissions.antt =====
-- Who may change a group.
use messinger_backend.Prelude.{
  ◌≡◌, ◌⊎◌, true, ◌&&◌, any, arith, inl, inr, Option-cases, some, subst, Bool,
}
use messinger_backend.Prelude.Rows.{any_of_Any}
use messinger_backend.Types.{Uuid, is_owner}
use messinger_backend.Entities.{ConversationMember}
use messinger_backend.Orm.{Orm, IsOrm, Found, orm-eq-table_orm}
use messinger_backend.Packages.{Packages}
use messinger_backend.Store.{Store, Action}
use messinger_backend.Store.Constraints.{same_member}
use messinger_backend.Conversation.Invitation.{validate_group_invitation}
use messinger_backend.Conversation.Group.{
  transfer_group_ownership, remove_group_member, delete_group,
}

-- A row of the conversation gives the user the role of the owner.
abbrev pub is_owner_of : Uuid → Uuid → Store → Bool
is_owner_of c u s = any (λ m. same_member c u m && is_owner m.role) s.members

-- Nothing is changed unless the user owns the conversation.
abbrev pub OwnerOnly : {A : Type 0} → Uuid → Uuid → Action A → Store → Type 0
OwnerOnly c u m s = ((m s).1 ≡ s) ⊎ (is_owner_of c u s ≡ true)

module _ ⦃o : Orm⦄ (l : IsOrm o) where
  found_owner :
      (c u : Uuid) (s : Store) (m : ConversationMember)
      → o.find_one _ (same_member c u) s.members ≡ some m
      → is_owner m.role ≡ true
      → is_owner_of c u s ≡ true
  found_owner c u s m e r =
      let (key, at) =
        subst (Found (same_member c u) s.members) e (l.find_one-Found _ _ s.members) in
      any_of_Any (λ x. same_member c u x && is_owner x.role) s.members m at (ground arith)

  transfer-OwnerOnly : (u c n : Uuid) (s : Store) → OwnerOnly c u (transfer_group_ownership u c n) s
  transfer-OwnerOnly = rw (orm-eq-table_orm l) (
      unfold transfer_group_ownership in
      λ u c n s. elim (Option-cases (o.find_one _ (same_member c u) s.members)) [
        | inl e ↦ ground arith
        | inr (m, e) ↦ ground (arith, found_owner c u s m e)
      ])

  remove-OwnerOnly : (u c t : Uuid) (s : Store) → OwnerOnly c u (remove_group_member u c t) s
  remove-OwnerOnly = rw (orm-eq-table_orm l) (
      unfold remove_group_member in
      λ u c n s. elim (Option-cases (o.find_one _ (same_member c u) s.members)) [
        | inl e ↦ ground arith
        | inr (m, e) ↦ ground (arith, found_owner c u s m e)
      ])

  delete_group-OwnerOnly : (u c : Uuid) (s : Store) → OwnerOnly c u (delete_group u c) s
  delete_group-OwnerOnly = rw (orm-eq-table_orm l) (
      unfold delete_group in
      λ u c s. elim (Option-cases (o.find_one _ (same_member c u) s.members)) [
        | inl e ↦ ground arith
        | inr (m, e) ↦ ground (arith, found_owner c u s m e)
      ])

  invite-OwnerOnly :
      ⦃k : Packages⦄ (u c t : Uuid) (s : Store) → OwnerOnly c u (validate_group_invitation u c t) s
  invite-OwnerOnly ⦃k⦄ = rw (orm-eq-table_orm l) (
      unfold validate_group_invitation in
      λ u c t s. elim (Option-cases (o.find_one _ (same_member c u) s.members)) [
        | inl e ↦ ground arith
        | inr (m, e) ↦ ground (arith, found_owner c u s m e)
      ])

-- Handing over, removing a member, deleting the group and inviting change the store only if a
-- row of the conversation gives the calling user the role of the owner.
pub only_owner_changes :
    ⦃o : Orm⦄ ⦃k : Packages⦄ (l : IsOrm o) (s : Store) (user_id conversation_id other_id : Uuid)
    → OwnerOnly conversation_id user_id
        (transfer_group_ownership user_id conversation_id other_id)
        s
      × OwnerOnly conversation_id user_id (remove_group_member user_id conversation_id other_id) s
      × OwnerOnly conversation_id user_id (delete_group user_id conversation_id) s
      × OwnerOnly conversation_id user_id
          (validate_group_invitation user_id conversation_id other_id)
          s
only_owner_changes l s u c t = (
  transfer-OwnerOnly l u c t s,
  remove-OwnerOnly l u c t s,
  delete_group-OwnerOnly l u c s,
  invite-OwnerOnly l u c t s,
)
