-- ===== src/Http/Conversations.antt =====
-- src/controllers/conversation.controller.ts. The cast of `validatedDto` is a match on the dto; a dto
-- of another shape would fail where its fields are read.
use messinger_backend.Prelude.{Option, some}
use messinger_backend.Exceptions.{type_error}
use messinger_backend.Orm.{Orm}
use messinger_backend.Cipher.{Cipher}
use messinger_backend.R2.{R2}
use messinger_backend.Store.{Action, pure, throw, gets, ◌>>=◌, ◌>>◌, or_throw}
use messinger_backend.Repositories.{delete_messages}
use messinger_backend.Storage.{delete_files}
use messinger_backend.Jobs.{storage_keys}
use messinger_backend.Messages.History.{get_conversation_messages}
use messinger_backend.Conversation.Private.{
  delete_private_conversation, reset_unread_messages_count,
}
use messinger_backend.Conversation.Group.{
  create_group, leave_group, transfer_group_ownership, remove_group_member, delete_group,
}
use messinger_backend.Conversation.Listing.{get_conversation_bootstrap}
use messinger_backend.Http.Exchange.{
  Dto, create_group_dto, conversation_dto, transfer_ownership_dto, remove_member_dto,
  get_messages_dto, list_conversations_dto, delete_messages_dto, no_body, group_body, history_body,
  bootstrap_body, Answer, Exchange, sends, the_user,
}

module _ ⦃o : Orm⦄ ⦃e : Cipher⦄ where
  unfoldable pub get_conversations_bootstrap : Exchange → Option Dto → Action Answer
  unfolding get_conversation_bootstrap
  get_conversations_bootstrap x (some (list_conversations_dto u cursor limit)) = do
    user_id ← the_user x
    result ← get_conversation_bootstrap user_id cursor limit
    pure (sends 200 (bootstrap_body result))
  get_conversations_bootstrap x _ = throw type_error

  unfoldable pub get_messages : Exchange → Option Dto → Action Answer
  unfolding get_conversation_messages
  get_messages x (some (get_messages_dto conversation_id cursor limit)) = do
    user_id ← the_user x
    result ← get_conversation_messages user_id conversation_id limit cursor
    pure (sends 200 (history_body result))
  get_messages x _ = throw type_error

module _ ⦃o : Orm⦄ where
  unfoldable pub create_group_controller : Exchange → Option Dto → Action Answer
  unfolding create_group
  create_group_controller x (some (create_group_dto name members)) = do
    user_id ← the_user x
    group ← create_group user_id name
    pure (sends 201 (group_body group.id group.name))
  create_group_controller x _ = throw type_error

  unfoldable pub leave_group_controller : Exchange → Option Dto → Action Answer
  unfolding leave_group
  leave_group_controller x (some (conversation_dto conversation_id)) = do
    user_id ← the_user x
    leave_group user_id conversation_id
    pure (sends 204 no_body)
  leave_group_controller x _ = throw type_error

  unfoldable pub transfer_ownership_controller : Exchange → Option Dto → Action Answer
  unfolding transfer_group_ownership
  transfer_ownership_controller x (some (transfer_ownership_dto conversation_id new_owner_id)) = do
    user_id ← the_user x
    transfer_group_ownership user_id conversation_id new_owner_id
    pure (sends 204 no_body)
  transfer_ownership_controller x _ = throw type_error

  unfoldable pub remove_member_controller : Exchange → Option Dto → Action Answer
  unfolding remove_group_member
  remove_member_controller x (some (remove_member_dto conversation_id target_user_id)) = do
    user_id ← the_user x
    remove_group_member user_id conversation_id target_user_id
    pure (sends 204 no_body)
  remove_member_controller x _ = throw type_error

  unfoldable pub delete_group_controller : Exchange → Option Dto → Action Answer
  unfolding delete_group
  delete_group_controller x (some (conversation_dto conversation_id)) = do
    user_id ← the_user x
    delete_group user_id conversation_id
    pure (sends 204 no_body)
  delete_group_controller x _ = throw type_error

  unfoldable pub delete_private_controller : Exchange → Option Dto → Action Answer
  unfolding delete_private_conversation
  delete_private_controller x (some (conversation_dto conversation_id)) = do
    user_id ← the_user x
    delete_private_conversation user_id conversation_id
    pure (sends 204 no_body)
  delete_private_controller x _ = throw type_error

  unfoldable pub reset_unread_controller : Exchange → Option Dto → Action Answer
  unfolding reset_unread_messages_count
  reset_unread_controller x (some (conversation_dto conversation_id)) = do
    user_id ← the_user x
    reset_unread_messages_count user_id conversation_id
    pure (sends 204 no_body)
  reset_unread_controller x _ = throw type_error

module _ ⦃o : Orm⦄ ⦃r : R2⦄ where
  -- The query for the messages loads their attachments, before the rows are deleted.
  unfoldable pub delete_messages_controller : Option Dto → Action Answer
  unfolding delete_messages storage_keys delete_files
  delete_messages_controller (some (delete_messages_dto conversation_id messages_ids)) = do
    attachments ← gets (λ s. s.attachments)
    found ← delete_messages conversation_id messages_ids
    messages ← or_throw found type_error
    delete_files (storage_keys messages attachments)
    pure (sends 204 no_body)
  delete_messages_controller _ = throw type_error
