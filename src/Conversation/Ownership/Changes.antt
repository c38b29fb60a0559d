-- ===== src/Conversation/Ownership/Changes.antt =====
-- Each change of the two tables keeps the invariant of every conversation.
use messinger_backend.Prelude.{
  none, map_where, Bool-cases, ◌≡◌, refl, Bool, true, false, not, ◌&&◌, ◌||◌, List, [], ◌∷◌, ◌++◌,
  some, arith, any, inl, inr, ◌==◌,
}
use messinger_backend.Prelude.Rows.{
  all-append, any-append, all-filter, any-filter, any-filter_out, any-filter_keep, all-map_where,
  any-map_where,
}
use messinger_backend.Types.{Uuid, Date, is_owner}
use messinger_backend.Entities.{Conversation, ConversationMember}
use messinger_backend.Store.Constraints.{same_member, conversation_exists}
use messinger_backend.Conversation.Effects.{hide_member, drop_members, drop_conversation}
use messinger_backend.Conversation.Effects.Membership.{show_member}
use messinger_backend.Conversation.Ownership.{
  WellOwned, IsOwnedBy, in_conversation, owner_in, fits_owner,
}
use messinger_backend.Conversation.Ownership.Keys.{
  map_where-is_keyed, filter-is_keyed, append-is_keyed,
}

module _ (c : Uuid) (cs : List Conversation) (ms : List ConversationMember) where
  -- A change of rows that moves none, and makes no owner.
  map_where-WellOwned :
      (q : ConversationMember → Bool) (f : ConversationMember → ConversationMember)
      → ((m : ConversationMember)
          → ((f m).conversation_id ≡ m.conversation_id)
            × ((f m).user_id ≡ m.user_id)
            × ((f m).role ≡ m.role))
      → ((v : Uuid) (m : ConversationMember)
          → IsOwnedBy c v cs ms
          → fits_owner c v m ≡ true
          → q m ≡ true
          → fits_owner c v (f m) ≡ true)
      → WellOwned c cs ms
      → WellOwned c cs (map_where q f ms)
  map_where-WellOwned q f same fits (k, w) = (
    map_where-is_keyed q f ms (λ m. ((same m).0, (same m).1)) k,
    elim w [
      | inl a ↦
          inl (a.0, rw (any-map_where (in_conversation c) q f ms (λ x. ground (arith, same x))) a.1)
      | inr (inl p) ↦
          inr (
            inl
              (p.0, p.1, rw (any-map_where (owner_in c) q f ms (λ x. ground (arith, same x))) p.2))
      | inr (inr (v, ((h)))) ↦ inr (
          inr (
            v,
            (
              h.0,
              h.1,
              all-map_where (fits_owner c v) (fits_owner c v) q f ms
                  (λ x e. ground (arith, fits v x h e)) h.2,
              rw (any-map_where (same_member c v) q f ms (λ x. ground (arith, same x))) h.3,
            ),
          ))
    ],
  )

  -- Marking a row as deleted, if it is no owner's.
  pub hide_member-WellOwned :
      (d u : Uuid) (now : Date)
      → ((v : Uuid) → IsOwnedBy c v cs ms → (d == c && u == v) ≡ false)
      → WellOwned c cs ms
      → WellOwned c cs (hide_member d u now ms)
  hide_member-WellOwned d u now other =
      map_where-WellOwned (same_member d u) (λ m. record m { soft_deleted_at = some now })
        (λ m. (refl, refl, refl)) (λ v x h e q. ground (arith, other v h))

  pub show_member-WellOwned :
      (d u : Uuid) (now : Date) → WellOwned c cs ms → WellOwned c cs (show_member d u now ms)
  show_member-WellOwned d u now =
      map_where-WellOwned (same_member d u)
        (λ m. record m { soft_deleted_at = none; restored_at = some now }) (λ m. (refl, refl, refl))
        (λ v x h e q. ground arith)

  pub reset_unread-WellOwned :
      (d u : Uuid)
      → WellOwned c cs ms
      → WellOwned c cs (map_where (same_member d u) (λ m. record m { unread_count = 0 }) ms)
  reset_unread-WellOwned d u =
      map_where-WellOwned (same_member d u) (λ m. record m { unread_count = 0 })
        (λ m. (refl, refl, refl)) (λ v x h e q. ground arith)

  drop_same :
      (d : Uuid)
      → (d == c) ≡ true
      → WellOwned c cs ms
      → WellOwned c (drop_conversation d cs) (drop_members d ms)
  drop_same d e (k, w) = (
    filter-is_keyed _ ms k,
    inl (
      any-filter_out (λ x. x.id == c) (λ x. not (x.id == d)) cs (λ x h. ground arith),
      any-filter_out (in_conversation c) (λ m. not (m.conversation_id == d)) ms
          (λ x h. ground arith),
    ),
  )

  drop_other :
      (d : Uuid)
      → (d == c) ≡ false
      → WellOwned c cs ms
      → WellOwned c (drop_conversation d cs) (drop_members d ms)
  drop_other d e (k, w) = (
    filter-is_keyed _ ms k,
    elim w [
      | inl a ↦ inl (any-filter _ _ cs a.0, any-filter _ _ ms a.1)
      | inr (inl p) ↦ inr (inl (exists p.0, any-filter _ _ cs p.1, any-filter _ _ ms p.2))
      | inr (inr (v, ((h)))) ↦ inr (
          inr (
            v,
            (
              exists h.0,
              any-filter _ _ cs h.1,
              all-filter _ _ ms h.2,
              rw
                  (any-filter_keep (same_member c v) (λ m. not (m.conversation_id == d)) ms
                    (λ x q. ground arith))
                  h.3,
            ),
          ))
    ],
  )
    where
      exists :
          conversation_exists cs c ≡ true → conversation_exists (drop_conversation d cs) c ≡ true
      exists h =
          rw (any-filter_keep (λ x. x.id == c) (λ x. not (x.id == d)) cs (λ x q. ground arith)) h

  -- Deleting a conversation with its members.
  pub drop-WellOwned :
      (d : Uuid) → WellOwned c cs ms → WellOwned c (drop_conversation d cs) (drop_members d ms)
  drop-WellOwned d w = elim (Bool-cases (d == c)) [
    | inl e ↦ drop_same d e w
    | inr e ↦ drop_other d e w
  ]

  -- One more member, with the role of a member.
  pub join-WellOwned :
      (m : ConversationMember)
      → is_owner m.role ≡ false
      → conversation_exists cs m.conversation_id ≡ true
      → any (same_member m.conversation_id m.user_id) ms ≡ false
      → WellOwned c cs ms
      → WellOwned c cs (ms ++ m ∷ [])
  join-WellOwned m role known new (k, w) = (
    append-is_keyed ms m k new,
    elim w [
      | inl a ↦ inl (a.0, rw (any-append (in_conversation c) ms (m ∷ [])) (stranger a.0 a.1))
      | inr (inl p) ↦ inr (inl (p.0, p.1, rw (any-append (owner_in c) ms (m ∷ [])) (ground arith)))
      | inr (inr (v, ((h)))) ↦ inr (
          inr (
            v,
            (
              h.0,
              h.1,
              rw (all-append (fits_owner c v) ms (m ∷ [])) (ground arith),
              rw (any-append (same_member c v) ms (m ∷ [])) (ground arith),
            ),
          ))
    ],
  )
    where
      stranger :
          conversation_exists cs c ≡ false
          → any (in_conversation c) ms ≡ false
          → (any (in_conversation c) ms || (in_conversation c m || false)) ≡ false
      stranger e f = ground arith
