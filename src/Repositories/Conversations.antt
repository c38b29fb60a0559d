-- ===== src/Repositories/Conversations.antt =====
-- src/repositories/conversation.repository.ts; the listing query is in `Listing`. A deletion takes with it
-- the rows whose relation to the conversation is declared `onDelete: 'CASCADE'` in src/entities.
use messinger_backend.Prelude.{
  ℕ, Bool, ◌&&◌, Option, none, some, String, List, [], ◌∷◌, ◌==◌, any, option_eq,
}
use messinger_backend.Types.{Uuid, ConversationType}
use messinger_backend.Entities.{Conversation, ConversationMember, Message}
use messinger_backend.Orm.{Orm}
use messinger_backend.Store.{Store, Action, pure, gets, modify, generate, ◌>>=◌, ◌>>◌, or_fail}
use messinger_backend.Store.Constraints.{admits_conversation}

-- `ConversationRepository.create({ type, privateKey, name })`
pub record NewConversation : Type 0 where
  pub type : ConversationType
  pub private_key : Option ℕ
  pub name : Option String

abbrev pub same_conversation : Uuid → Conversation → Bool
same_conversation id c = c.id == id

abbrev pub saved : Store → Uuid → NewConversation → Conversation
saved s id c = record {
  id = id;
  private_key = c.private_key;
  name = c.name;
  type = c.type;
  last_message_id = none;
  created_at = s.clock;
  updated_at = s.clock;
}

-- The message lies in the conversation, and the delivery belongs to such a message.
abbrev pub message_in : Uuid → Message → Bool
message_in conversation_id m = m.conversation_id == conversation_id

module _ ⦃o : Orm⦄ where
  unfoldable pub save_conversation : NewConversation → Action Conversation
  save_conversation c = do
    id ← generate
    row ← gets (λ s. saved s id c)
    inserted ← gets (λ s. o.insert _ admits_conversation (row ∷ []) s.conversations)
    table ← or_fail inserted
    modify (λ s. record s { conversations = table })
    pure row

  unfoldable pub find_by_id : Uuid → Action (Option Conversation)
  find_by_id id = gets (λ s. o.find_one _ (same_conversation id) s.conversations)

  unfoldable pub find_by_private_key : ℕ → Action (Option Conversation)
  find_by_private_key key =
      gets (λ s. o.find_one _ (λ c. option_eq c.private_key (some key)) s.conversations)

  -- The relation `members`, deleted ones included.
  unfoldable pub get_conversation_members : Uuid → Action (List ConversationMember)
  unfolding find_by_id
  get_conversation_members id = do
    conversation ← find_by_id id
    gets (λ s. elim conversation [
      | none ↦ []
      | some c ↦ o.find _ (λ m. m.conversation_id == c.id) s.members
    ])

  unfoldable pub delete_conversation : Uuid → Action (Unit {0})
  delete_conversation id = modify (λ s. record s {
    conversations = o.delete _ (same_conversation id) s.conversations;
    members = o.delete _ (λ m. m.conversation_id == id) s.members;
    events = o.delete _ (λ e. e.conversation_id == id) s.events;
    invitations = o.delete _ (λ i. i.conversation_id == id) s.invitations;
    deliveries =
        o.delete _ (λ d. any (λ m. message_in id m && m.id == d.message_id) s.messages)
          s.deliveries;
    attachments =
        o.delete _ (λ a. any (λ m. message_in id m && m.id == a.message_id) s.messages)
          s.attachments;
    messages = o.delete _ (message_in id) s.messages;
  })

  -- `updatedAt` is an update date column.
  unfoldable pub update_last_message : Uuid → Uuid → Action (Unit {0})
  update_last_message conversation_id message_id = modify (λ s. record s {
    conversations =
        o.update _ (same_conversation conversation_id)
          (λ c. record c { last_message_id = some message_id; updated_at = s.clock })
          s.conversations;
  })
