-- ===== src/Messages/Sending.antt =====
-- `cipherMessage`, `decipherMessage`, `createPrivateMessage`, `createGroupMessage` and
-- `deleteMessages`. `Promise.all` runs its parts one after the other.
use messinger_backend.Prelude.{
  not, Option, none, some, List, [], ◌∷◌, String, map, filter, ◌==◌, is_some, if◌then◌else◌,
}
use messinger_backend.Types.{Uuid, Date, private, is_group, sent}
use messinger_backend.Exceptions.{not_found, forbidden, decipher_failed}
use messinger_backend.Entities.{Conversation, ConversationMember, Message, MessageAttachment, User}
use messinger_backend.Orm.{Orm}
use messinger_backend.Packages.{Packages}
use messinger_backend.R2.{R2}
use messinger_backend.Cipher.{Cipher}
use messinger_backend.Store.{Action, pure, gets, ◌>>=◌, ◌>>◌, throw_if, or_throw, transaction}
use messinger_backend.Repositories.{
  NewDelivery, find_member, get_members, restore_conversation, increment_unread_count, find_by_id,
  get_conversation_members, update_last_message, save_message, create_deliveries,
  find_by_message_id, delete_messages,
}
use messinger_backend.Storage.{process_message_attachments}
use messinger_backend.Conversation.Private.{get_or_create_private_conversation}
use messinger_backend.Conversation.Invitation.{is_removed}

-- `{ cipheredContent, iv, authTag }`
pub record Ciphered : Type 0 where
  pub ciphered_content : String
  pub iv : String
  pub auth_tag : String

-- `savedMessage` of a group message.
pub record SavedMessage : Type 0 where
  pub id : Uuid
  pub created_at : Date
  pub sender_id : Uuid
  pub conversation_id : Uuid
  pub content : String
  pub saved_attachments : List MessageAttachment

-- `savedMessage` of a private message.
pub record SavedPrivateMessage : Type 0 where
  pub id : Uuid
  pub created_at : Date
  pub sender_id : Uuid
  pub conversation : Conversation
  pub content : String
  pub saved_attachments : List MessageAttachment
  pub sender_name : Option String

module _ ⦃e : Cipher⦄ where
  unfoldable pub cipher_message : String → Action Ciphered
  cipher_message content = do
    iv ← gets (λ s. e.random_iv s.serial)
    pure (record {
      ciphered_content = (e.encrypt content iv).0;
      iv = iv;
      auth_tag = (e.encrypt content iv).1;
    })

  unfoldable pub decipher_message : String → String → String → Action String
  decipher_message encrypted_content iv auth_tag =
      or_throw (e.decrypt encrypted_content iv auth_tag) decipher_failed

-- `members.filter((member) => member.userId !== senderId)`
abbrev pub receivers : Uuid → List ConversationMember → List ConversationMember
receivers sender_id = filter (λ m. not (m.user_id == sender_id))

abbrev pub sent_to : Uuid → ConversationMember → NewDelivery
sent_to message_id m = record { message_id = message_id; user_id = m.user_id; status = sent }

module _ ⦃o : Orm⦄ where
  -- `incrementUnreadCount` of each of the members.
  unfoldable pub increment_all : Uuid → List ConversationMember → Action (Unit {0})
  unfolding increment_unread_count
  increment_all conversation_id [] = pure tt
  increment_all conversation_id (m ∷ ms) =
      increment_unread_count conversation_id m.user_id >> increment_all conversation_id ms

  -- `if (member?.softDeletedAt) { await restoreConversation(…); }`
  unfoldable pub restore_if_removed : Option ConversationMember → Uuid → Uuid → Action (Unit {0})
  unfolding restore_conversation
  restore_if_removed member conversation_id user_id =
      if is_removed member then restore_conversation conversation_id user_id else pure tt

  -- `sender?.user.username`
  unfoldable pub username_of : Option ConversationMember → Action (Option String)
  username_of none = pure none
  username_of (some m) = gets (λ s. elim (o.find_one _ (λ (u : User). u.id == m.user_id) s.users) [
    | none ↦ none
    | some u ↦ u.username
  ])

  unfoldable pub remove_messages : Uuid → List Uuid → Action (Option (List Message))
  unfolding delete_messages
  remove_messages conversation_id ids = delete_messages conversation_id ids

module _ ⦃o : Orm⦄ ⦃r : R2⦄ where
  -- What the two transactions have in common: the message, its deliveries, the last message of the
  -- conversation, the attachments and the unread counts.
  unfoldable pub store_message :
      Uuid
      → Uuid
      → List ConversationMember
      → Ciphered
      → List Uuid
      → Action (Message × List MessageAttachment)
  unfolding save_message create_deliveries update_last_message process_message_attachments
      increment_all find_by_message_id
  store_message sender_id conversation_id members ciphered attachments = do
    message ← save_message (record {
      conversation_id = conversation_id;
      sender_id = sender_id;
      ciphered_content = ciphered.ciphered_content;
      iv = ciphered.iv;
      auth_tag = ciphered.auth_tag;
    })
    create_deliveries (map (sent_to message.id) (receivers sender_id members))
    update_last_message conversation_id message.id
    process_message_attachments sender_id message.id attachments
    increment_all conversation_id (receivers sender_id members)
    saved_attachments ← find_by_message_id message.id
    pure (message, saved_attachments)

  -- The transaction of `createGroupMessage`: the message and the members.
  unfoldable pub store_group_message :
      Uuid
      → Uuid
      → List ConversationMember
      → String
      → Ciphered
      → List Uuid
      → Action (SavedMessage × List ConversationMember)
  unfolding store_message
  store_group_message sender_id conversation_id members content ciphered attachments = do
    stored ← store_message sender_id conversation_id members ciphered attachments
    pure (
      record {
        id = stored.0.id;
        created_at = stored.0.created_at;
        sender_id = sender_id;
        conversation_id = conversation_id;
        content = content;
        saved_attachments = stored.1;
      },
      members,
    )

  -- The transaction of `createPrivateMessage`.
  unfoldable pub store_private_message :
      Uuid
      → Uuid
      → Conversation
      → Option ConversationMember
      → Option ConversationMember
      → List ConversationMember
      → String
      → Ciphered
      → List Uuid
      → Action SavedPrivateMessage
  unfolding store_message restore_if_removed username_of
  store_private_message sender_id receiver_id conversation sender receiver members content ciphered
        attachments =
      do
        restore_if_removed sender conversation.id sender_id
        restore_if_removed receiver conversation.id receiver_id
        stored ← store_message sender_id conversation.id members ciphered attachments
        sender_name ← username_of sender
        pure (record {
          id = stored.0.id;
          created_at = stored.0.created_at;
          sender_id = sender_id;
          conversation = conversation;
          content = content;
          saved_attachments = stored.1;
          sender_name = sender_name;
        })

module _ ⦃o : Orm⦄ ⦃r : R2⦄ ⦃e : Cipher⦄ where
  -- The message and the members.
  unfoldable pub create_group_message :
      Uuid → Uuid → String → List Uuid → Action (SavedMessage × List ConversationMember)
  unfolding find_by_id find_member get_members cipher_message store_group_message
  create_group_message sender_id conversation_id content attachments = do
    found ← find_by_id conversation_id
    found_member ← find_member conversation_id sender_id
    members ← get_members conversation_id
    conversation ← or_throw found (not_found "GROUP:NOT_FOUND")
    throw_if (not (is_group conversation.type)) (forbidden "GROUP:INVALID_CONVERSATION_TYPE")
    membership ← or_throw found_member (forbidden "GROUP:USER_NOT_MEMBER")
    throw_if (is_some membership.soft_deleted_at) (forbidden "GROUP:USER_LEFT_GROUP")
    ciphered ← cipher_message content
    transaction (store_group_message sender_id conversation_id members content ciphered attachments)

module _ ⦃o : Orm⦄ ⦃k : Packages⦄ ⦃r : R2⦄ ⦃e : Cipher⦄ where
  unfoldable pub create_private_message :
      Uuid → Uuid → String → List Uuid → Action (SavedPrivateMessage × List ConversationMember)
  unfolding get_or_create_private_conversation find_member get_conversation_members cipher_message
      store_private_message
  create_private_message sender_id receiver_id content attachments = do
    ciphered ← cipher_message content
    found ← get_or_create_private_conversation private sender_id (receiver_id ∷ [])
    conversation ← or_throw found (not_found "CONVERSATION_NOT_FOUND")
    sender ← find_member conversation.id sender_id
    receiver ← find_member conversation.id receiver_id
    members ← get_conversation_members conversation.id
    saved ← transaction (
        store_private_message sender_id receiver_id conversation sender receiver members content
          ciphered attachments)
    pure (saved, members)
