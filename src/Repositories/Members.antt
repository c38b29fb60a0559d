-- ===== src/Repositories/Members.antt =====
-- src/repositories/conversation-member.repository.ts. Without a `manager` the query runs on the
-- repository itself, with the same effect on the rows.
use messinger_backend.Prelude.{
  ℕ, ◌+◌, Bool, not, ◌&&◌, Option, none, some, List, [], ◌∷◌, map, ◌==◌, is_some,
}
use messinger_backend.Types.{Uuid, ConversationRole}
use messinger_backend.Entities.{ConversationMember}
use messinger_backend.Orm.{Orm}
use messinger_backend.Store.{Store, Action, pure, gets, modify, ◌>>=◌, ◌>>◌, or_fail}
use messinger_backend.Store.Constraints.{same_member, admits_member}

pub record CreateMember : Type 0 where
  pub conversation_id : Uuid
  pub user_id : Uuid
  pub role : ConversationRole

-- `{ conversationId, softDeletedAt: IsNull() }`
abbrev pub active_in : Uuid → ConversationMember → Bool
active_in conversation_id m =
    m.conversation_id == conversation_id && not (is_some m.soft_deleted_at)

abbrev pub new_member : Store → CreateMember → ConversationMember
new_member s m = record {
  conversation_id = m.conversation_id;
  user_id = m.user_id;
  role = m.role;
  soft_deleted_at = none;
  restored_at = none;
  unread_count = 0;
  created_at = s.clock;
}

module _ ⦃o : Orm⦄ where
  unfoldable pub bulk_create : List CreateMember → Action (Unit {0})
  bulk_create [] = pure tt
  bulk_create (m ∷ ms) = do
    rows ← gets (λ s. map (new_member s) (m ∷ ms))
    inserted ← gets (λ s. o.insert _ (admits_member s.conversations s.users) rows s.members)
    table ← or_fail inserted
    modify (λ s. record s { members = table })

  unfoldable pub find_member : Uuid → Uuid → Action (Option ConversationMember)
  find_member conversation_id user_id =
      gets (λ s. o.find_one _ (same_member conversation_id user_id) s.members)

  unfoldable pub member_exists : Uuid → Uuid → Action Bool
  member_exists conversation_id user_id = gets (λ s.
      o.exists_by _ (λ m. same_member conversation_id user_id m && not (is_some m.soft_deleted_at))
        s.members)

  unfoldable pub get_remaining_conversations : Uuid → Action ℕ
  get_remaining_conversations conversation_id =
      gets (λ s. o.count _ (active_in conversation_id) s.members)

  unfoldable pub get_members : Uuid → Action (List ConversationMember)
  get_members conversation_id = gets (λ s. o.find _ (active_in conversation_id) s.members)

  -- `repository.update({ conversationId, userId }, patch)`
  abbrev update_member : Uuid → Uuid → (ConversationMember → ConversationMember) → Action (Unit {0})
  update_member conversation_id user_id patch =
      modify (λ s. record s {
        members = o.update _ (same_member conversation_id user_id) patch s.members;
      })

  unfoldable pub update_role : Uuid → Uuid → ConversationRole → Action (Unit {0})
  update_role conversation_id user_id role =
      update_member conversation_id user_id (λ m. record m { role = role })

  -- `result.affected`; nothing calls it.
  unfoldable pub remove_member : Uuid → Uuid → Action ℕ
  remove_member conversation_id user_id = do
    affected ← gets (λ s. o.count _ (same_member conversation_id user_id) s.members)
    modify (λ s. record s { members = o.delete _ (same_member conversation_id user_id) s.members })
    pure affected

  unfoldable pub mark_conversation_as_deleted : Uuid → Uuid → Action (Unit {0})
  mark_conversation_as_deleted conversation_id user_id = do
    now ← gets (λ s. s.clock)
    update_member conversation_id user_id (λ m. record m { soft_deleted_at = some now })

  unfoldable pub restore_conversation : Uuid → Uuid → Action (Unit {0})
  restore_conversation conversation_id user_id = do
    now ← gets (λ s. s.clock)
    update_member conversation_id user_id
        (λ m. record m { soft_deleted_at = none; restored_at = some now })

  unfoldable pub increment_unread_count : Uuid → Uuid → Action (Unit {0})
  increment_unread_count conversation_id user_id =
      update_member conversation_id user_id (λ m. record m { unread_count = m.unread_count + 1 })

  unfoldable pub reset_unread_count : Uuid → Uuid → Action (Unit {0})
  reset_unread_count conversation_id user_id =
      update_member conversation_id user_id (λ m. record m { unread_count = 0 })
