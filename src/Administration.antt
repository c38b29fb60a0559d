-- ===== src/Administration.antt =====
-- The removals and the listings of a user's conversations and messages of
-- src/services/admin.service.ts. Auth/Accounts holds the others.
pub mod Removal
use messinger_backend.Prelude.{
  Bool, true, false, not, ◌&&◌, ◌||◌, Option, none, some, List, [], ◌∷◌, map, any, includes, ◌==◌,
  ℕ,
}
use messinger_backend.Types.{Uuid, admin, same_role}
use messinger_backend.Entities.{
  Conversation, ConversationMember, ConversationEvent, GroupInvitation, Message, MessageAttachment,
  MessageDelivery, PendingUpload, PushSubscription, Session, User,
}
use messinger_backend.Orm.{Orm}
use messinger_backend.R2.{R2}
use messinger_backend.Store.{Store, Action, pure, gets, modify, transaction, ◌>>=◌, ◌>>◌}
use messinger_backend.Storage.{delete_files}
use messinger_backend.Jobs.{storage_keys}
use messinger_backend.Cipher.{Cipher}
use messinger_backend.Repositories.{ListedConversation, get_conversation_list}
use messinger_backend.Pagination.{Paginated, paginate}
use messinger_backend.Messages.History.{HistoryPage, get_conversation_messages}

-- The sender is one of those.
abbrev pub sent_by : (Uuid → Bool) → Message → Bool
sent_by gone m = elim m.sender_id [ none ↦ false | some id ↦ gone id ]

-- `NOT EXISTS (… cm.user_id != :userId)`
abbrev pub has_only : Uuid → List ConversationMember → Uuid → Bool
has_only user_id rows id =
    not (any (λ m. m.conversation_id == id && not (m.user_id == user_id)) rows)

module _ ⦃o : Orm⦄ where
  -- The conversations go with their members, events, invitations and messages, and the messages with
  -- their deliveries and attachments (`onDelete: 'CASCADE'`).
  abbrev pub drop_conversations : List Uuid → Action (Unit {0})
  drop_conversations ids = modify (λ s. record s {
    conversations = o.delete Conversation (λ c. includes ids c.id) s.conversations;
    members = o.delete ConversationMember (λ m. includes ids m.conversation_id) s.members;
    events = o.delete ConversationEvent (λ e. includes ids e.conversation_id) s.events;
    invitations = o.delete GroupInvitation (λ i. includes ids i.conversation_id) s.invitations;
    deliveries =
        o.delete MessageDelivery
          (λ d. any (λ m. includes ids m.conversation_id && m.id == d.message_id) s.messages)
          s.deliveries;
    attachments =
        o.delete MessageAttachment
          (λ a. any (λ m. includes ids m.conversation_id && m.id == a.message_id) s.messages)
          s.attachments;
    messages = o.delete Message (λ m. includes ids m.conversation_id) s.messages;
  })

  -- The users go with their memberships, invitations, sessions and uploads (`'CASCADE'`), and their
  -- messages stay without a sender (`'SET NULL'`).
  abbrev pub drop_users : (User → Bool) → Action (Unit {0})
  drop_users p = modify (λ s.
      let gone : Uuid → Bool = λ id. any (λ u. p u && u.id == id) s.users in
      record s {
        users = o.delete User p s.users;
        members = o.delete ConversationMember (λ m. gone m.user_id) s.members;
        invitations =
            o.delete GroupInvitation (λ i. gone i.actor_id || gone i.target_id) s.invitations;
        sessions = o.delete Session (λ t. gone t.user_id) s.sessions;
        uploads = o.delete PendingUpload (λ u. gone u.user_id) s.uploads;
        subscriptions = o.delete PushSubscription (λ p. gone p.user_id) s.subscriptions;
        messages = o.update Message (sent_by gone) (λ m. record m { sender_id = none }) s.messages;
      })

  unfoldable pub delete_admin : Uuid → Action (Unit {0})
  delete_admin user_id = drop_users (λ u. u.id == user_id && same_role u.role admin)

module _ ⦃o : Orm⦄ ⦃r : R2⦄ where
  -- Steps 3 and 4: the files, then the conversations.
  unfoldable pub delete_orphans : List Uuid → Action (Unit {0})
  unfolding delete_files storage_keys
  delete_orphans [] = pure tt
  delete_orphans (id ∷ ids) = do
    keys ← gets (λ s.
        storage_keys (o.find Message (λ m. includes (id ∷ ids) m.conversation_id) s.messages)
          s.attachments)
    delete_files keys
    drop_conversations (id ∷ ids)

  -- Steps 2 to 4, for the conversations in which the user has a row.
  unfoldable pub delete_memberships : Uuid → List Uuid → Action (Unit {0})
  unfolding delete_orphans
  delete_memberships user_id [] = pure tt
  delete_memberships user_id (id ∷ ids) = do
    orphans ← gets (λ s.
        o.find Conversation (λ c. includes (id ∷ ids) c.id && has_only user_id s.members c.id)
          s.conversations)
    delete_orphans (map (λ c. c.id) orphans)

  unfoldable pub remove_user : Uuid → Action (Unit {0})
  unfolding delete_memberships
  remove_user user_id = do
    memberships ← gets (λ s. o.find ConversationMember (λ m. m.user_id == user_id) s.members)
    delete_memberships user_id (map (λ m. m.conversation_id) memberships)
    drop_users (λ u. u.id == user_id)

  unfoldable pub delete_user : Uuid → Action (Unit {0})
  unfolding remove_user
  delete_user user_id = transaction (remove_user user_id)

module _ ⦃o : Orm⦄ where
  unfoldable pub list_user_conversations :
      Uuid → Option Uuid → ℕ → Action (Paginated ListedConversation)
  unfolding get_conversation_list paginate
  list_user_conversations user_id cursor limit = do
    conversations ← get_conversation_list user_id cursor limit
    pure (paginate conversations limit)

module _ ⦃o : Orm⦄ ⦃e : Cipher⦄ where
  unfoldable pub list_conversation_messages : Uuid → Uuid → ℕ → Option Uuid → Action HistoryPage
  unfolding get_conversation_messages
  list_conversation_messages user_id conversation_id limit cursor =
      get_conversation_messages user_id conversation_id limit cursor
