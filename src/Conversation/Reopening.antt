-- ===== src/Conversation/Reopening.antt =====
-- A private conversation belongs to two users, whoever opens it.
use messinger_backend.Prelude.{
  Any, ap, ℕ, ◌≡◌, true, any, arith, inl, inr, Option-cases, some, none, subst, Bool, List, [], ◌∷◌,
  ◌++◌, map, option_eq, length, ◌≤◌,
}
use messinger_backend.Prelude.Rows.{any_of_Any, any-append}
use messinger_backend.Types.{Uuid, private}
use messinger_backend.Exceptions.{IsOk, ok}
use messinger_backend.Entities.{Conversation}
use messinger_backend.Orm.{Orm, IsOrm, Found, insert_rows, orm-eq-table_orm}
use messinger_backend.Packages.{Packages}
use messinger_backend.Store.{Store}
use messinger_backend.Repositories.{saved, new_member}
use messinger_backend.Store.Constraints.{admits_member}
use messinger_backend.Conversation.Effects.Creation.{with_roles}
use messinger_backend.Conversation.Private.{
  generate_private_key, normalize_members, sort, create_with_members,
  get_or_create_private_conversation,
}

-- The two users in order.
normalize_swap :
    (a b : Uuid) → sort (normalize_members a (b ∷ [])) ≡ sort (normalize_members b (a ∷ []))
unfolding sort normalize_members
normalize_swap a b = ground arith

normalize_two : (a b : Uuid) → length (normalize_members a (b ∷ [])) ≤ 2
unfolding normalize_members
normalize_two a b = ground arith

module _ ⦃k : Packages⦄ where
  -- The key of a private conversation does not depend on who opens it.
  pub generate_private_key-swap :
      (a b : Uuid)
      → generate_private_key (normalize_members a (b ∷ []))
        ≡ generate_private_key (normalize_members b (a ∷ []))
  unfolding generate_private_key
  generate_private_key-swap a b = ap k.sha256_of_ids (normalize_swap a b)

module _ ⦃o : Orm⦄ where
  abbrev has_key : ℕ → Store → Bool
  has_key key s = any (λ c. option_eq c.private_key (some key)) s.conversations

  abbrev new : Store → ℕ → Conversation
  new s key =
      saved s (o.uuid s.serial) (record { type = private; private_key = some key; name = none })

  -- The conversation created under a key has it.
  create_with_members-has_key :
      (l : IsOrm o) (u : Uuid) (key : ℕ) (us : List Uuid) (s : Store)
      → IsOk (create_with_members private u us (some key) s).0
      → has_key key (create_with_members private u us (some key) s).1 ≡ true
  create_with_members-has_key l = rw (orm-eq-table_orm l) (
      unfold create_with_members in
      λ u key. elim [
        | [] ↦ λ s h. ground (
          arith,
          any-append (λ c. option_eq c.private_key (some key)) s.conversations (new s key ∷ []),
        )
        | v ∷ vs ↦ λ s h.
            elim (Option-cases (
              insert_rows (admits_member (s.conversations ++ new s key ∷ []) s.users)
                (map (new_member s) (with_roles private u (o.uuid s.serial) (v ∷ vs))) s.members)) [
                  | inl e ↦ ground arith
                  | inr (t, e) ↦ ground (
                    arith,
                    any-append (λ c. option_eq c.private_key (some key)) s.conversations
                        (new s key ∷ []),
                  )
                ]
      ])

module _ ⦃o : Orm⦄ ⦃k : Packages⦄ where
  -- A stored conversation has the key of the two, and the call answers it and creates nothing.
  abbrev pub IsFound : Uuid → Uuid → Store → Type 0
  IsFound a b s =
      (c : Conversation) × (c.private_key
        ≡ some (generate_private_key (normalize_members a (b ∷ []))))
      × Any (λ x. x ≡ c) s.conversations
      × (get_or_create_private_conversation private a (b ∷ []) s ≡ (ok (some c), s))

module _ ⦃o : Orm⦄ ⦃k : Packages⦄ (l : IsOrm o) (a b : Uuid) (s : Store) where
  abbrev key : ℕ
  key = generate_private_key (normalize_members a (b ∷ []))

  -- Once the call is fulfilled, a conversation has the key.
  opened-has_key :
      IsOk (get_or_create_private_conversation private a (b ∷ []) s).0
      → has_key key (get_or_create_private_conversation private a (b ∷ []) s).1 ≡ true
  unfolding get_or_create_private_conversation
  opened-has_key h =
      let at =
        l.find_one-Found Conversation (λ c. option_eq c.private_key (some key)) s.conversations in
      let made = create_with_members-has_key l a key (sort (normalize_members a (b ∷ []))) s in
      elim (Option-cases
        (o.find_one Conversation (λ c. option_eq c.private_key (some key)) s.conversations)) [
          | inl e ↦ ground (arith, made)
          | inr (c, e) ↦
              let (same, inside) =
                subst (Found (λ c. option_eq c.private_key (some key)) s.conversations) e at in
              ground (
                arith,
                any_of_Any (λ c. option_eq c.private_key (some key)) s.conversations c inside same,
              )
        ]

  known_key : has_key key s ≡ true → IsFound a b s
  unfolding get_or_create_private_conversation
  known_key h =
      let at =
        l.find_one-Found Conversation (λ c. option_eq c.private_key (some key)) s.conversations in
      elim (Option-cases
        (o.find_one Conversation (λ c. option_eq c.private_key (some key)) s.conversations)) [
          | inl e ↦
              let nothing =
                subst (Found (λ c. option_eq c.private_key (some key)) s.conversations) e at in
              absurd (ground arith)
          | inr (c, e) ↦
              let (same, inside) =
                subst (Found (λ c. option_eq c.private_key (some key)) s.conversations) e at in
              (c, ground arith, inside, ground (arith, normalize_two a b))
        ]

-- After a user has opened a private conversation with another, the same call by the other user
-- resolves to a stored conversation with the key of the two, and changes nothing.
pub reopen_changes_nothing :
    ⦃o : Orm⦄ ⦃k : Packages⦄ (l : IsOrm o) (a b : Uuid) (s : Store)
    → IsOk (get_or_create_private_conversation private a (b ∷ []) s).0
    → let t = (get_or_create_private_conversation private a (b ∷ []) s).1 in IsFound b a t
reopen_changes_nothing l a b s h =
    let t = (get_or_create_private_conversation private a (b ∷ []) s).1 in
    known_key l b a t (rw (← generate_private_key-swap a b) (opened-has_key l a b s h))
