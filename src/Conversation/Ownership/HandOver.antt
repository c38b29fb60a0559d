-- ===== src/Conversation/Ownership/HandOver.antt =====
-- The invariant under a change of the owner.
use messinger_backend.Prelude.{
  ◌≡◌, ◌∙◌, refl, Bool, true, false, not, ◌&&◌, ◌||◌, List, arith, if◌then◌else◌, any, Any, inl,
  inr, ◌==◌, is_some, Bool-cases,
}
use messinger_backend.Prelude.Rows.{
  all, all_of_Any, any_of_Any, all-map_where, any-map_where, all_and,
}
use messinger_backend.Types.{Uuid, ConversationRole, owner, member, is_owner}
use messinger_backend.Entities.{Conversation, ConversationMember}
use messinger_backend.Store.Constraints.{same_member}
use messinger_backend.Conversation.Effects.{set_role}
use messinger_backend.Conversation.Ownership.{
  WellOwned, IsOwnedBy, in_conversation, owner_in, fits_owner,
}
use messinger_backend.Conversation.Ownership.Keys.{is_keyed, map_where-is_keyed, all_with_key}

abbrev as_role_set : Uuid → Uuid → Uuid → List ConversationMember → List ConversationMember
as_role_set d p n ms = set_role d n owner (set_role d p member ms)

set_role-is_keyed :
    (d u : Uuid) (role : ConversationRole) (ms : List ConversationMember)
    → is_keyed ms ≡ true
    → is_keyed (set_role d u role ms) ≡ true
set_role-is_keyed d u role ms =
    map_where-is_keyed (same_member d u) (λ m. record m { role = role }) ms (λ m. (refl, refl))

module _ (c d p n : Uuid) (ms : List ConversationMember) where
  keeps_any :
      (t : ConversationMember → Bool)
      → ((m : ConversationMember) → t (record m { role = owner }) ≡ t m)
      → ((m : ConversationMember) → t (record m { role = member }) ≡ t m)
      → any t (as_role_set d p n ms) ≡ any t ms
  keeps_any t up down =
      any-map_where t (same_member d n) _ (set_role d p member ms) (λ x. ground (arith, up x))
      ∙ any-map_where t (same_member d p) _ ms (λ x. ground (arith, down x))

  -- In another conversation nothing changes.
  elsewhere :
      (v : Uuid)
      → (d == c) ≡ false
      → all (fits_owner c v) ms ≡ true
      → all (fits_owner c v) (as_role_set d p n ms) ≡ true
  elsewhere v e h =
      all-map_where (fits_owner c v) (fits_owner c v) (same_member d n)
        (λ m. record m { role = owner }) _ (λ x q. ground arith)
        (all-map_where (fits_owner c v) (fits_owner c v) (same_member d p)
          (λ m. record m { role = member }) ms (λ x q. ground arith) h)

  elsewhere_private :
      (d == c) ≡ false
      → any (owner_in c) ms ≡ false
      → any (owner_in c) (as_role_set d p n ms) ≡ false
  elsewhere_private e h =
      any-map_where (owner_in c) (same_member d n) (λ m. record m { role = owner }) _
        (λ x. ground arith)
      ∙ any-map_where (owner_in c) (same_member d p) (λ m. record m { role = member }) ms
          (λ x. ground arith)
      ∙ h

  -- With no owner left, and the row of `n` not deleted if it is there.
  abbrev between : ConversationMember → Bool
  between m =
      if m.conversation_id == c
      then not (is_owner m.role) && (not (m.user_id == n) || not (is_some m.soft_deleted_at))
      else true

  handed_over :
      (d == c) ≡ true
      → all (fits_owner c p) ms ≡ true
      → all (λ m. not (same_member d n m) || not (is_some m.soft_deleted_at)) ms ≡ true
      → all (fits_owner c n) (as_role_set d p n ms) ≡ true
  handed_over e h k =
      all-map_where between (fits_owner c n) (same_member d n) (λ m. record m { role = owner }) _
        (λ x q. ground arith)
        (all-map_where
          (λ m. fits_owner c p m && (not (same_member d n m) || not (is_some m.soft_deleted_at)))
          between (same_member d p) (λ m. record m { role = member }) ms (λ x q. ground arith)
          (all_and (fits_owner c p)
            (λ m. not (same_member d n m) || not (is_some m.soft_deleted_at)) _ ms
            (λ x a b. ground arith) h k))

module _ (c : Uuid) (cs : List Conversation) (ms : List ConversationMember) where
  -- The owner's row and the row of an active member change roles.
  pub hand_over-WellOwned :
      (d p n : Uuid) (current target : ConversationMember)
      → (same_member d p current ≡ true) × Any (λ m. m ≡ current) ms
      → is_owner current.role ≡ true
      → (same_member d n target ≡ true) × Any (λ m. m ≡ target) ms
      → is_some target.soft_deleted_at ≡ false
      → WellOwned c cs ms
      → WellOwned c cs (as_role_set d p n ms)
  hand_over-WellOwned d p n current target (cu, cin) own (tu, tin) live (k, w) = (
    set_role-is_keyed d n owner _ (set_role-is_keyed d p member ms k),
    elim w [
      | inl a ↦ inl (a.0, keeps_any c d p n ms (in_conversation c) (λ m. refl) (λ m. refl) ∙ a.1)
      | inr (inl b) ↦ elim (Bool-cases (d == c)) [
        | inl e ↦ absurd (ground (arith, any_of_Any (owner_in c) ms current cin))
        | inr e ↦ inr (inl (b.0, b.1, elsewhere_private c d p n ms e b.2))
      ]
      | inr (inr (v, h)) ↦ inr (
          inr (elim (Bool-cases (d == c)) [
            | inl e ↦ here v h e
            | inr e ↦ (
              v,
              (
                h.0,
                h.1,
                elsewhere c d p n ms v e h.2,
                keeps_any c d p n ms (same_member c v) (λ m. refl) (λ m. refl) ∙ h.3,
              ),
            )
          ]))
    ],
  )
    where
      the_owner : (v : Uuid) → IsOwnedBy c v cs ms → (d == c) ≡ true → v ≡ p
      the_owner v h e = ground (arith, all_of_Any (fits_owner c v) ms current cin)

      here :
          (v : Uuid)
          → IsOwnedBy c v cs ms
          → (d == c) ≡ true
          → (u : Uuid) × IsOwnedBy c u cs (as_role_set d p n ms)
      here v h e = (
        n,
        (
          h.0,
          h.1,
          handed_over c d p n ms e (rw (← the_owner v h e) h.2) (
              all_with_key (λ m. not (is_some m.soft_deleted_at)) d n target ms k (tu, tin)
                (ground arith)),
          keeps_any c d p n ms (same_member c n) (λ m. refl) (λ m. refl)
              ∙ any_of_Any (same_member c n) ms target tin (ground arith),
        ),
      )
