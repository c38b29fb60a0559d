-- ===== src/Conversation/Ownership/Founding.antt =====
-- The invariant when conversations are created.
use messinger_backend.Prelude.{
  ◌≡◌, true, false, not, ◌&&◌, List, [], ◌∷◌, ◌++◌, arith, any, inl, inr, ◌==◌, is_some, Bool-cases,
}
use messinger_backend.Prelude.Rows.{
  all, all-append, any-append, all_and, none_of_all, none_of_none, all_of_none,
}
use messinger_backend.Types.{Uuid, is_owner, is_group}
use messinger_backend.Entities.{Conversation, ConversationMember}
use messinger_backend.Store.Constraints.{same_member, conversation_exists}
use messinger_backend.Conversation.Ownership.{
  WellOwned, in_conversation, owner_in, fits_owner, group_row, private_row,
}
use messinger_backend.Conversation.Ownership.Keys.{is_keyed, append-is_keyed}

module _ (c : Uuid) (cs : List Conversation) (ms : List ConversationMember) where
  stranger_to_new :
      (d : Conversation)
      → conversation_exists cs d.id ≡ false
      → (d.id == c) ≡ false
      → conversation_exists (cs ++ d ∷ []) c ≡ conversation_exists cs c
  stranger_to_new d new e = rw (any-append (λ x. x.id == c) cs (d ∷ [])) (ground arith)

  -- A new conversation with its first members, who all are in it; `founded` says what becomes of it.
  new-WellOwned :
      (d : Conversation) (rows : List ConversationMember)
      → conversation_exists cs d.id ≡ false
      → is_keyed (ms ++ rows) ≡ true
      → all (in_conversation d.id) rows ≡ true
      → ((d.id == c) ≡ true
          → any (in_conversation c) ms ≡ false
          → WellOwned c (cs ++ d ∷ []) (ms ++ rows))
      → WellOwned c cs ms
      → WellOwned c (cs ++ d ∷ []) (ms ++ rows)
  new-WellOwned d rows new keyed inside founded (k, w) = elim (Bool-cases (d.id == c)) [
    | inl e ↦ elim w [
      | inl a ↦ founded e a.1
      | inr (inl b) ↦ absurd (ground arith)
      | inr (inr (v, h)) ↦ absurd (ground arith)
    ]
    | inr e ↦ (
      keyed,
      elim w [
        | inl a ↦ inl (
          rw (stranger_to_new d new e) a.0,
          rw (any-append (in_conversation c) ms rows) (ground (arith, none_inside e)),
        )
        | inr (inl b) ↦ inr (
            inl (
              rw (stranger_to_new d new e) b.0,
              rw (any-append (group_row c) cs (d ∷ [])) (ground arith),
              rw (any-append (owner_in c) ms rows) (ground (arith, no_owner e)),
            ))
        | inr (inr (v, h)) ↦ inr (
            inr (
              v,
              (
                rw (stranger_to_new d new e) h.0,
                rw (any-append (private_row c) cs (d ∷ [])) (ground arith),
                rw (all-append (fits_owner c v) ms rows) (ground (arith, all_fit v e)),
                rw (any-append (same_member c v) ms rows) (ground arith),
              ),
            ))
      ],
    )
  ]
    where
      none_inside : (d.id == c) ≡ false → any (in_conversation c) rows ≡ false
      none_inside e =
          none_of_all (in_conversation d.id) (in_conversation c) rows (λ x h. ground arith) inside

      no_owner : (d.id == c) ≡ false → any (owner_in c) rows ≡ false
      no_owner e = none_of_all (in_conversation d.id) (owner_in c) rows (λ x h. ground arith) inside

      all_fit : (v : Uuid) → (d.id == c) ≡ false → all (fits_owner c v) rows ≡ true
      all_fit v e =
          all_and (in_conversation d.id) (in_conversation d.id) (fits_owner c v) rows
            (λ x h g. ground arith) inside inside

  pub new_group-WellOwned :
      (d : Conversation) (m : ConversationMember)
      → conversation_exists cs d.id ≡ false
      → any (same_member d.id m.user_id) ms ≡ false
      → is_group d.type ≡ true
      → m.conversation_id ≡ d.id
      → (is_owner m.role && not (is_some m.soft_deleted_at)) ≡ true
      → WellOwned c cs ms
      → WellOwned c (cs ++ d ∷ []) (ms ++ m ∷ [])
  new_group-WellOwned d m new fresh grp inside own w =
      new-WellOwned d (m ∷ []) new keyed (ground arith)
        (λ e none. (
          keyed,
          inr (
              inr (
                m.user_id,
                (
                  rw (any-append (λ x. x.id == c) cs (d ∷ [])) (ground arith),
                  rw (any-append (private_row c) cs (d ∷ [])) (
                      ground (
                        arith,
                        none_of_none (λ x. x.id == d.id) (private_row c) cs (λ x h. ground arith)
                            new,
                      )),
                  rw (all-append (fits_owner c m.user_id) ms (m ∷ [])) (
                      ground (
                        arith,
                        all_of_none (in_conversation c) (fits_owner c m.user_id) ms none
                            (λ x h. ground arith),
                      )),
                  rw (any-append (same_member c m.user_id) ms (m ∷ [])) (ground arith),
                ),
              )),
        ))
        w
    where
      keyed : is_keyed (ms ++ m ∷ []) ≡ true
      keyed = append-is_keyed ms m w.0 (ground arith)

  pub new_private-WellOwned :
      (d : Conversation) (rows : List ConversationMember)
      → conversation_exists cs d.id ≡ false
      → is_keyed (ms ++ rows) ≡ true
      → all (λ m. in_conversation d.id m && not (is_owner m.role)) rows ≡ true
      → is_group d.type ≡ false
      → WellOwned c cs ms
      → WellOwned c (cs ++ d ∷ []) (ms ++ rows)
  new_private-WellOwned d rows new keyed inside priv w =
      new-WellOwned d rows new keyed
        (all_and _ _ (in_conversation d.id) rows (λ x h g. ground arith) inside inside)
        (λ e none. (
          keyed,
          inr (
              inl (
                rw (any-append (λ x. x.id == c) cs (d ∷ [])) (ground arith),
                rw (any-append (group_row c) cs (d ∷ [])) (
                    ground (
                      arith,
                      none_of_none (λ x. x.id == d.id) (group_row c) cs (λ x h. ground arith) new,
                    )),
                rw (any-append (owner_in c) ms rows) (
                    ground (
                      arith,
                      none_of_none (in_conversation c) (owner_in c) ms (λ x h. ground arith) none,
                      none_of_all (λ m. in_conversation d.id m && not (is_owner m.role))
                          (owner_in c) rows (λ x h. ground arith) inside,
                    )),
              )),
        ))
        w
