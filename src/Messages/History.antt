-- ===== src/Messages/History.antt =====
-- `getConversationMessages`: messages and events of a conversation, merged by their dates.
use messinger_backend.Prelude.Sort.{sort_rows}
use messinger_backend.Prelude.{
  ℕ, suc, Bool, Option, none, some, List, [], ◌∷◌, ◌++◌, String, map, length, ltb, take,
  if◌then◌else◌, ◌==◌,
}
use messinger_backend.Types.{Uuid, Date}
use messinger_backend.Entities.{ConversationEvent, ConversationMember, Message, MessageAttachment}
use messinger_backend.Orm.{Orm}
use messinger_backend.Cipher.{Cipher}
use messinger_backend.Store.{Action, pure, gets, ◌>>=◌}
use messinger_backend.Repositories.{find_member, find_by_conversation, find_events}
use messinger_backend.Messages.Sending.{decipher_message}

-- A message with its content, without the three fields that it is ciphered in.
pub record ReadMessage : Type 0 where
  pub id : Uuid
  pub conversation_id : Uuid
  pub sender_id : Option Uuid
  pub created_at : Date
  pub content : String
  pub attachments : List MessageAttachment

pub data HistoryItem : Type 0 where
  message_item : ReadMessage → HistoryItem
  event_item : ConversationEvent → HistoryItem

abbrev pub item_created_at : HistoryItem → Date
item_created_at (message_item m) = m.created_at
item_created_at (event_item e) = e.created_at

abbrev pub item_id : HistoryItem → Uuid
item_id (message_item m) = m.id
item_id (event_item e) = e.id

pub record HistoryPage : Type 0 where
  pub page : List HistoryItem
  pub next_cursor : Option Uuid

-- `page.at(0)?.id`
abbrev pub first_id : List HistoryItem → Option Uuid
first_id [] = none
first_id (x ∷ xs) = some (item_id x)

-- `history.sort(…)`, which is stable, and what is cut out of it.
unfoldable pub page_of : ℕ → List HistoryItem → HistoryPage
page_of limit items =
    let history = sort_rows item_created_at Bool.false items in
    let page = take (suc limit) history in
    record { page = page; next_cursor = if ltb limit (length history) then first_id page else none }

-- `member?.softDeletedAt`
abbrev pub last_deleted_at : Option ConversationMember → Option Date
last_deleted_at none = none
last_deleted_at (some m) = m.soft_deleted_at

module _ ⦃o : Orm⦄ ⦃e : Cipher⦄ where
  -- `messages.map(…)`, with the relation `attachments` that the query has loaded.
  unfoldable pub decipher_all : List Message → Action (List HistoryItem)
  unfolding decipher_message
  decipher_all [] = pure []
  decipher_all (m ∷ ms) = do
    content ← decipher_message m.ciphered_content m.iv m.auth_tag
    attachments ← gets (λ s. o.find MessageAttachment (λ a. a.message_id == m.id) s.attachments)
    rest ← decipher_all ms
    pure (
        message_item (record {
          id = m.id;
          conversation_id = m.conversation_id;
          sender_id = m.sender_id;
          created_at = m.created_at;
          content = content;
          attachments = attachments;
        })
        ∷ rest)

  unfoldable pub get_conversation_messages : Uuid → Uuid → ℕ → Option Uuid → Action HistoryPage
  unfolding find_member find_by_conversation find_events decipher_all page_of
  get_conversation_messages user_id conversation_id limit cursor = do
    member ← find_member conversation_id user_id
    messages ← find_by_conversation conversation_id limit cursor (last_deleted_at member)
    events ← find_events conversation_id limit cursor
    items ← decipher_all messages
    pure (page_of limit (items ++ map event_item events))
