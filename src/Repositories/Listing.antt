-- ===== src/Repositories/Listing.antt =====
-- `getConversationList` (src/repositories/conversation.repository.ts). `updated_at` is an update date
-- column without null, so the branch for a null in the row of the cursor is never taken.
use mathlib.Core.Option
use messinger_backend.Prelude.{
  ℕ, suc, Bool, true, not, ◌&&◌, Option, none, some, List, [], ◌∷◌, String, ◌==◌, any, filter, map,
  take, get_last?, is_some,
}
use messinger_backend.Prelude.Latest.{comes_before}
use messinger_backend.Types.{Uuid, Date, ConversationType}
use messinger_backend.Entities.{Conversation, ConversationMember, User}
use messinger_backend.Orm.{Orm}
use messinger_backend.Store.{Store, Action, pure, gets, ◌>>=◌, or_fail}
use messinger_backend.Repositories.Conversations.{same_conversation}
use messinger_backend.Repositories.Users.{is_live}

-- A row of `members`, with the relation `user`.
pub record ListedMember : Type 0 where
  pub conversation_id : Uuid
  pub unread_count : ℕ
  pub user : Option User

-- The selected columns of a conversation, with the relation `members`.
pub record ListedConversation : Type 0 where
  pub id : Uuid
  pub name : Option String
  pub type : ConversationType
  pub created_at : Date
  pub updated_at : Date
  pub members : List ListedMember

-- The user has a row in the conversation, and has not removed it.
abbrev pub takes_part : Uuid → Store → Conversation → Bool
takes_part user_id s c =
    any (λ m. m.conversation_id == c.id && m.user_id == user_id && not (is_some m.soft_deleted_at))
      s.members

-- `conversation.updatedAt < … OR (conversation.updatedAt = … AND conversation.id < …)`
abbrev pub behind : Option Conversation → Conversation → Bool
behind none c = true
behind (some k) c = comes_before (λ x. x.updated_at) (λ x. x.id) k c

-- `rowsById.get(id)`: the last of the rows with the id.
abbrev pub row_by_id : List ListedConversation → Uuid → Option ListedConversation
row_by_id rows id = get_last? (filter (λ r. r.id == id) rows)

-- `conversationIds.map((conversation) => rowsById.get(conversation.id)!)`
unfoldable pub ordered_rows :
    List ListedConversation → List Conversation → Action (List ListedConversation)
ordered_rows rows [] = pure []
ordered_rows rows (c ∷ cs) = do
  row ← or_fail (row_by_id rows c.id)
  rest ← ordered_rows rows cs
  pure (row ∷ rest)

module _ ⦃o : Orm⦄ where
  -- The row with its dates as the driver reads them.
  abbrev pub read_conversation : Conversation → Conversation
  read_conversation c = record c {
    created_at = o.read_date c.created_at;
    updated_at = o.read_date c.updated_at;
  }

  unfoldable pub listed_member : Store → ConversationMember → ListedMember
  listed_member s m = record {
    conversation_id = m.conversation_id;
    unread_count = m.unread_count;
    user = o.find_one User (λ u. u.id == m.user_id && is_live u) s.users;
  }

  unfoldable pub listed_conversation : Store → Conversation → ListedConversation
  unfolding listed_member
  listed_conversation s c = record {
    id = c.id;
    name = c.name;
    type = c.type;
    created_at = o.read_date c.created_at;
    updated_at = o.read_date c.updated_at;
    members =
        map (listed_member s)
          (o.find ConversationMember (λ m. m.conversation_id == c.id) s.members);
  }

  -- The row of the cursor, with its dates as they are read.
  unfoldable pub cursor_conversation : Option Uuid → Action (Option Conversation)
  cursor_conversation none = pure none
  cursor_conversation (some id) =
      gets (λ s. Option.map read_conversation (o.find_one _ (same_conversation id) s.conversations))

  -- `idsQuery.getMany()`
  unfoldable pub list_ids : Uuid → ℕ → Option Conversation → Action (List Conversation)
  list_ids user_id limit cursor = gets (λ s. take (suc limit) (
      o.find_latest Conversation (λ c. takes_part user_id s c && behind cursor c)
        (λ c. c.updated_at) (λ c. c.id) s.conversations))

  unfoldable pub get_conversation_list : Uuid → Option Uuid → ℕ → Action (List ListedConversation)
  unfolding cursor_conversation list_ids listed_conversation ordered_rows
  get_conversation_list user_id cursor limit = do
    found ← cursor_conversation cursor
    ids ← list_ids user_id limit found
    rows ← gets (λ s.
        map (listed_conversation s)
          (o.find Conversation (λ c. any (λ k. k.id == c.id) ids) s.conversations))
    ordered_rows rows ids
