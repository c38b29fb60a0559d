-- ===== src/Repositories/Messages.antt =====
-- src/repositories/message.repository.ts, less `findById`. The relation `attachments` of a message
-- is the rows of the other table that name it.
use mathlib.Core.Option
use messinger_backend.Prelude.{
  ℕ, suc, Bool, true, ◌&&◌, Option, none, some, List, [], ◌∷◌, ◌==◌, ltb, String, take, any,
  includes,
}
use messinger_backend.Types.{Uuid, Date}
use messinger_backend.Entities.{Conversation, Message}
use messinger_backend.Orm.{Orm}
use messinger_backend.Store.{Action, pure, gets, modify, generate, ◌>>=◌, ◌>>◌, or_fail}
use messinger_backend.Store.Constraints.{admits_message}

-- `MessageRepository.create({ … })`
pub record NewMessage : Type 0 where
  pub conversation_id : Uuid
  pub sender_id : Uuid
  pub ciphered_content : String
  pub iv : String
  pub auth_tag : String

abbrev pub new_message : Uuid → Date → NewMessage → Message
new_message id now m = record {
  id = id;
  conversation_id = m.conversation_id;
  sender_id = some m.sender_id;
  ciphered_content = m.ciphered_content;
  iv = m.iv;
  auth_tag = m.auth_tag;
  created_at = now;
}

-- The condition on `createdAt`, by the message that the cursor found and `lastDeletedAt`.
abbrev pub in_window : Option Message → Option Date → Date → Bool
in_window none none created_at = true
in_window none (some deleted_at) created_at = ltb deleted_at created_at
in_window (some cursor) none created_at = ltb created_at cursor.created_at
in_window (some cursor) (some deleted_at) created_at =
    ltb deleted_at created_at && ltb created_at cursor.created_at

-- The last message of the conversation is one of those.
abbrev pub has_last : (Uuid → Bool) → Conversation → Bool
has_last q c = elim c.last_message_id [ none ↦ Bool.false | some id ↦ q id ]

module _ ⦃o : Orm⦄ where
  -- The row with its date as the driver reads it.
  abbrev pub read_message : Message → Message
  read_message m = record m { created_at = o.read_date m.created_at }

  unfoldable pub save_message : NewMessage → Action Message
  save_message m = do
    id ← generate
    row ← gets (λ s. new_message id s.clock m)
    inserted ← gets (λ s. o.insert _ (admits_message s.conversations s.users) (row ∷ []) s.messages)
    table ← or_fail inserted
    modify (λ s. record s { messages = table })
    pure row

  -- The message of the cursor, in the conversation, with its date as it is read.
  unfoldable pub find_cursor : Uuid → Option Uuid → Action (Option Message)
  find_cursor conversation_id none = pure none
  find_cursor conversation_id (some cursor) = gets (λ s.
      Option.map read_message
        (o.find_one _ (λ m. m.id == cursor && m.conversation_id == conversation_id) s.messages))

  unfoldable pub find_by_conversation : Uuid → ℕ → Option Uuid → Option Date → Action (List Message)
  unfolding find_cursor
  find_by_conversation conversation_id limit cursor last_deleted_at = do
    found ← find_cursor conversation_id cursor
    gets (λ s. take (suc limit) (
        o.find_sorted _
          (λ m.
            m.conversation_id == conversation_id && in_window found last_deleted_at m.created_at)
          (λ m. m.created_at) true s.messages))

  unfoldable pub find_messages_to_cleanup : Date → Action (List Message)
  find_messages_to_cleanup cutoff = gets (λ s. o.find _ (λ m. ltb m.created_at cutoff) s.messages)

  -- A deletion of messages takes their deliveries and attachments with it (`onDelete: 'CASCADE'`),
  -- and no conversation keeps one of them as its last message (`'SET NULL'`).
  abbrev pub drop_messages : (Message → Bool) → Action (Unit {0})
  drop_messages p = modify (λ s. record s {
    conversations =
        o.update _ (has_last (λ id. any (λ m. p m && m.id == id) s.messages))
          (λ c. record c { last_message_id = none }) s.conversations;
    messages = o.delete _ p s.messages;
    deliveries = o.delete _ (λ d. any (λ m. p m && m.id == d.message_id) s.messages) s.deliveries;
    attachments = o.delete _ (λ a. any (λ m. p m && m.id == a.message_id) s.messages) s.attachments;
  })

  -- `result.affected`
  unfoldable pub delete_messages_older_than : Date → Action ℕ
  delete_messages_older_than cutoff = do
    affected ← gets (λ s. o.count _ (λ m. ltb m.created_at cutoff) s.messages)
    drop_messages (λ m. ltb m.created_at cutoff)
    pure affected

  -- `{ conversationId, id: In(messagesIds) }`
  abbrev pub listed_message : Uuid → List Uuid → Message → Bool
  listed_message conversation_id ids m = m.conversation_id == conversation_id && includes ids m.id

  unfoldable pub delete_messages : Uuid → List Uuid → Action (Option (List Message))
  delete_messages conversation_id [] = pure none
  delete_messages conversation_id (id ∷ ids) = do
    messages ← gets (λ s. o.find _ (listed_message conversation_id (id ∷ ids)) s.messages)
    drop_messages (listed_message conversation_id (id ∷ ids))
    pure (some messages)
