-- ===== src/Conversation/Effects.antt =====
-- What each operation of the conversation service does to the tables of conversations and members,
-- as rules for a property of the two: it holds after the call if it holds before and is kept by
-- the one change that the call may make.
pub mod Membership
pub mod Creation
use messinger_backend.Prelude.{
  ◌≡◌, ◌≢◌, true, false, ◌++◌, [], ◌∷◌, ℕ, ◌==◌, List, some, arith, inl, inr, Option-cases, is_some,
  map_where, Option, none, not, filter,
}
use messinger_backend.Types.{
  Uuid, Date, ConversationRole, owner, member, is_owner, ConversationType, group, is_group,
}
use messinger_backend.Entities.{Conversation, ConversationMember}
use messinger_backend.Orm.{Orm, IsOrm, orm-eq-table_orm}
use messinger_backend.Store.{Store}
use messinger_backend.Repositories.{same_conversation, active_in}
use messinger_backend.Conversation.Private.{
  delete_private_conversation, reset_unread_messages_count,
}
use messinger_backend.Store.Constraints.{same_member}
use messinger_backend.Conversation.Group.{
  leave_group, transfer_group_ownership, remove_group_member, delete_group,
}

abbrev pub hide_member : Uuid → Uuid → Date → List ConversationMember → List ConversationMember
hide_member c u now = map_where (same_member c u) (λ m. record m { soft_deleted_at = some now })

abbrev pub set_role :
    Uuid → Uuid → ConversationRole → List ConversationMember → List ConversationMember
set_role c u role = map_where (same_member c u) (λ m. record m { role = role })

abbrev pub drop_members : Uuid → List ConversationMember → List ConversationMember
drop_members c = filter (λ m. not (m.conversation_id == c))

abbrev pub drop_conversation : Uuid → List Conversation → List Conversation
drop_conversation c = filter (λ d. not (same_conversation c d))

module _ ⦃o : Orm⦄ (l : IsOrm o) (P : List Conversation → List ConversationMember → Type 0)
    (s : Store) where
  abbrev pub After : Store → Type 0
  After t = P t.conversations t.members

  pub leave_group-After :
      (user_id conversation_id : Uuid)
      → After s
      → ((m : ConversationMember)
          → o.find_one _ (same_member conversation_id user_id) s.members ≡ some m
          → is_owner m.role ≡ false
          → P s.conversations (hide_member conversation_id user_id s.clock s.members))
      → After (leave_group user_id conversation_id s).1
  leave_group-After = rw (orm-eq-table_orm l) (
      unfold leave_group in
      λ u c same hidden. elim (Option-cases (o.find_one _ (same_member c u) s.members)) [
        | inl e ↦ ground arith
        | inr (m, e) ↦ ground (arith, hidden m e)
      ])

  pub transfer_group_ownership-After :
      (prev_owner conversation_id new_owner_id : Uuid)
      → After s
      → ((m n : ConversationMember)
          → prev_owner ≢ new_owner_id
          → o.find_one _ (same_member conversation_id prev_owner) s.members ≡ some m
          → o.find_one _ (same_member conversation_id new_owner_id) s.members ≡ some n
          → is_owner m.role ≡ true
          → is_some n.soft_deleted_at ≡ false
          → P s.conversations (
              set_role conversation_id new_owner_id owner
                (set_role conversation_id prev_owner member s.members)))
      → After (transfer_group_ownership prev_owner conversation_id new_owner_id s).1
  transfer_group_ownership-After = rw (orm-eq-table_orm l) (
      unfold transfer_group_ownership in
      λ u c v same swapped. elim (Option-cases (o.find_one _ (same_member c u) s.members)) [
        | inl e ↦ ground arith
        | inr (m, e) ↦ elim (Option-cases (o.find_one _ (same_member c v) s.members)) [
          | inl d ↦ ground arith
          | inr (n, d) ↦ ground (arith, swapped m n)
        ]
      ])

  pub remove_group_member-After :
      (user_id conversation_id target_user_id : Uuid)
      → After s
      → ((m : ConversationMember)
          → o.find_one _ (same_member conversation_id target_user_id) s.members ≡ some m
          → is_owner m.role ≡ false
          → P s.conversations (hide_member conversation_id target_user_id s.clock s.members))
      → After (remove_group_member user_id conversation_id target_user_id s).1
  remove_group_member-After = rw (orm-eq-table_orm l) (
      unfold remove_group_member in
      λ u c v same hidden. elim (Option-cases (o.find_one _ (same_member c v) s.members)) [
        | inl e ↦ ground arith
        | inr (m, e) ↦ ground (arith, hidden m e)
      ])

  pub delete_group-After :
      (user_id conversation_id : Uuid)
      → After s
      → P
          (drop_conversation conversation_id s.conversations)
          (drop_members conversation_id s.members)
      → After (delete_group user_id conversation_id s).1
  delete_group-After =
      rw (orm-eq-table_orm l) (unfold delete_group in λ u c same gone. ground arith)

  pub delete_private_conversation-After :
      (user_id conversation_id : Uuid)
      → After s
      → ((c : Conversation)
          → o.find_one _ (same_conversation conversation_id) s.conversations ≡ some c
          → is_group c.type ≡ false
          → P s.conversations (hide_member conversation_id user_id s.clock s.members))
      → ((c : Conversation)
          → o.find_one _ (same_conversation conversation_id) s.conversations ≡ some c
          → is_group c.type ≡ false
          → P (drop_conversation conversation_id s.conversations) (
              drop_members conversation_id (hide_member conversation_id user_id s.clock s.members)))
      → After (delete_private_conversation user_id conversation_id s).1
  delete_private_conversation-After = rw (orm-eq-table_orm l) (
      unfold delete_private_conversation in
      λ u c same hidden gone.
        elim (Option-cases (o.find_one _ (same_conversation c) s.conversations)) [
          | inl e ↦ ground arith
          | inr (d, e) ↦ ground (arith, hidden d e, gone d e)
        ])

  pub reset_unread_messages_count-After :
      (user_id conversation_id : Uuid)
      → P s.conversations (
          map_where
            (same_member conversation_id user_id)
            (λ m. record m { unread_count = 0 })
            s.members)
      → After (reset_unread_messages_count user_id conversation_id s).1
  reset_unread_messages_count-After =
      rw (orm-eq-table_orm l) (unfold reset_unread_messages_count in λ u c reset. ground arith)
