-- ===== src/Conversation/Listing.antt =====
-- `getConversationBootstrap` (src/services/conversation.service.ts): a page of the user's
-- conversations, each with a page of its history. The requests for the pages only read the store,
-- and are made in the order of the page.
pub mod Rows
pub mod Pages
pub mod Loaded
use messinger_backend.Prelude.{ℕ, Option, none, some, List, [], ◌∷◌, String, get_last?, map}
use messinger_backend.Types.{Uuid, Date, ConversationType}
use messinger_backend.Entities.{User}
use messinger_backend.Orm.{Orm}
use messinger_backend.Cipher.{Cipher}
use messinger_backend.Store.{Action, pure, ◌>>=◌, or_fail}
use messinger_backend.Repositories.{ListedConversation, ListedMember, get_conversation_list}
use messinger_backend.Pagination.{paginate}
use messinger_backend.Messages.History.{HistoryItem, get_conversation_messages}

pub record BootstrapMember : Type 0 where
  pub user_id : Uuid
  pub username : Option String
  pub last_seen_at : Option Date
  pub unread_count : ℕ

pub record BootstrapConversation : Type 0 where
  pub id : Uuid
  pub type : ConversationType
  pub name : Option String
  pub messages : List HistoryItem
  pub messages_cursor : Option Uuid
  pub created_at : Date
  pub updated_at : Date
  pub last_message : Option HistoryItem
  pub members : List BootstrapMember

-- The cursor is the last conversation of the page.
pub record Bootstrap : Type 0 where
  pub page : List BootstrapConversation
  pub next_cursor : Option ListedConversation

-- `conversation.members.map(…)`; reading `member.user.id` fails when there is no user.
unfoldable pub bootstrap_members : List ListedMember → Action (List BootstrapMember)
bootstrap_members [] = pure []
bootstrap_members (m ∷ ms) = do
  user ← or_fail m.user
  rest ← bootstrap_members ms
  pure (
      record {
        user_id = user.id;
        username = user.username;
        last_seen_at = user.last_seen_at;
        unread_count = m.unread_count;
      }
      ∷ rest)

module _ ⦃o : Orm⦄ ⦃e : Cipher⦄ where
  unfoldable pub bootstrap_conversation : Uuid → ListedConversation → Action BootstrapConversation
  unfolding get_conversation_messages bootstrap_members
  bootstrap_conversation user_id c = do
    history ← get_conversation_messages user_id c.id 20 none
    members ← bootstrap_members c.members
    pure (record {
      id = c.id;
      type = c.type;
      name = c.name;
      messages = history.page;
      messages_cursor = history.next_cursor;
      created_at = c.created_at;
      updated_at = c.updated_at;
      last_message = get_last? history.page;
      members = members;
    })

  unfoldable pub bootstrap_page :
      Uuid → List ListedConversation → Action (List BootstrapConversation)
  unfolding bootstrap_conversation
  bootstrap_page user_id [] = pure []
  bootstrap_page user_id (c ∷ cs) = do
    conversation ← bootstrap_conversation user_id c
    rest ← bootstrap_page user_id cs
    pure (conversation ∷ rest)

  unfoldable pub get_conversation_bootstrap : Uuid → Option Uuid → ℕ → Action Bootstrap
  unfolding get_conversation_list bootstrap_page paginate
  get_conversation_bootstrap user_id cursor limit = do
    conversations ← get_conversation_list user_id cursor limit
    page ← bootstrap_page user_id (paginate conversations limit).page
    pure (record { page = page; next_cursor = (paginate conversations limit).next_cursor })
