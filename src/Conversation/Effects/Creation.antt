-- ===== src/Conversation/Effects/Creation.antt =====
-- The same for a new conversation with several members.
use mathlib.Core.List.{append-nil, append_assoc}
use messinger_backend.Prelude.{
  refl, ◌≡◌, ◌∙◌, false, ◌++◌, List, [], ◌∷◌, Option, none, some, arith, inl, inr, Option-cases,
  Bool-cases, map, Bool, ℕ,
}
use messinger_backend.Types.{Uuid, private, ConversationType}
use messinger_backend.Entities.{Conversation, ConversationMember}
use messinger_backend.Orm.{Orm, IsOrm, orm-eq-table_orm, insert_rows}
use messinger_backend.Packages.{Packages}
use messinger_backend.Store.{Store}
use messinger_backend.Store.Constraints.{conversation_exists, admits_member}
use messinger_backend.Repositories.{CreateMember, new_member, saved}
use messinger_backend.Conversation.Private.{
  get_member_role, create_with_members, get_or_create_private_conversation, normalize_members, sort,
  generate_private_key,
}
use messinger_backend.Conversation.Effects.{After}

-- Rows that are let in stand behind the others.
pub insert_rows-eq-some :
    {R : Type 0} (admits : List R → R → Bool) (rs t : List R) {t' : List R}
    → insert_rows admits rs t ≡ some t'
    → t' ≡ t ++ rs
insert_rows-eq-some admits [] t e = rw append-nil (cc)
insert_rows-eq-some admits (r ∷ rs) t {t'} e = elim (Bool-cases (admits t r)) [
  | inl let_in ↦
      insert_rows-eq-some admits rs (t ++ r ∷ []) (rw let_in at e) ∙ append_assoc t (r ∷ []) rs
  | inr refused ↦ ground arith
]

abbrev pub with_roles : ConversationType → Uuid → Uuid → List Uuid → List CreateMember
with_roles type creator_id id = map (λ user_id. record {
  conversation_id = id;
  user_id = user_id;
  role = get_member_role type user_id creator_id;
})

module _ ⦃o : Orm⦄ (l : IsOrm o) (P : List Conversation → List ConversationMember → Type 0)
    (s : Store) where
  -- Whatever the members are once the new rows are let in behind the others.
  abbrev pub Created : ConversationType → Uuid → List Uuid → Option ℕ → Type 0
  Created type creator_id users key =
      let id = o.uuid s.serial in
      let d = saved s id (record { type = type; private_key = key; name = none }) in
      let rows = map (new_member s) (with_roles type creator_id id users) in
      (t : List ConversationMember)
      → (insert_rows (admits_member (s.conversations ++ d ∷ []) s.users) rows s.members ≡ some t)
      → P (s.conversations ++ d ∷ []) t

  pub create_with_members-After :
      (type : ConversationType) (creator_id : Uuid) (users : List Uuid) (key : Option ℕ)
      → After l P s s
      → (conversation_exists s.conversations (o.uuid s.serial) ≡ false
          → Created type creator_id users key)
      → After l P s (create_with_members type creator_id users key s).1
  create_with_members-After = rw (orm-eq-table_orm l) (
      unfold create_with_members in
      λ type creator_id. elim [
        | [] ↦ λ key same made. ground (
          arith,
          λ (h : conversation_exists s.conversations (o.uuid s.serial) ≡ false).
              made h s.members refl,
        )
        | v ∷ vs ↦ λ key same made.
            let d =
              saved s (o.uuid s.serial) (record { type = type; private_key = key; name = none }) in
            let rows = map (new_member s) (with_roles type creator_id (o.uuid s.serial) (v ∷ vs)) in
            elim (Option-cases
              (insert_rows (admits_member (s.conversations ++ d ∷ []) s.users) rows s.members)) [
                | inl e ↦ ground arith
                | inr (t, e) ↦ ground (
                  arith,
                  λ (h : conversation_exists s.conversations (o.uuid s.serial) ≡ false). made h t e,
                )
              ]
      ])

  module _ ⦃k : Packages⦄ where
    pub get_or_create_private_conversation-After :
        (creator_id : Uuid) (members : List Uuid)
        → After l P s s
        → (let users = normalize_members creator_id members in
            conversation_exists s.conversations (o.uuid s.serial) ≡ false
            → Created private creator_id (sort users) (some (generate_private_key users)))
        → After l P s (get_or_create_private_conversation private creator_id members s).1
    unfolding get_or_create_private_conversation
    get_or_create_private_conversation-After creator_id members same made =
        let users = normalize_members creator_id members in
        ground (
          arith,
          create_with_members-After private creator_id (sort users)
              (some (generate_private_key users)) same made,
        )
