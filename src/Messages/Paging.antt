-- ===== src/Messages/Paging.antt =====
-- What a page of the history holds.
use mathlib.Core.Option
use messinger_backend.Prelude.{
  ℕ, suc, Bool, true, false, ◌&&◌, Option, none, some, List, take, ltb, ◌==◌,
}
use messinger_backend.Types.{Uuid, Date}
use messinger_backend.Entities.{ConversationEvent, Message}
use messinger_backend.Orm.{Orm}
use messinger_backend.Cipher.{Cipher}
use messinger_backend.Store.{Store}
use messinger_backend.Repositories.{in_window, before_event}
use messinger_backend.Messages.History.{HistoryItem, message_item, event_item}

-- An item of the conversation; of its messages, those after the user's last removal of it.
abbrev pub is_shown : Uuid → Option Date → HistoryItem → Bool
is_shown c none (message_item m) = m.conversation_id == c
is_shown c (some d) (message_item m) = m.conversation_id == c && ltb d m.created_at
is_shown c d (event_item e) = e.conversation_id == c

-- The same of the row of a message.
abbrev is_shown_row : Uuid → Option Date → Message → Bool
is_shown_row c none m = m.conversation_id == c
is_shown_row c (some d) m = m.conversation_id == c && ltb d m.created_at

module _ ⦃o : Orm⦄ where
  abbrev window : Uuid → ℕ → Option Message → Option Date → Store → List Message
  window c limit found d s = take (suc limit) (
      o.find_sorted Message (λ m. m.conversation_id == c && in_window found d m.created_at)
        (λ m. m.created_at) true s.messages)

  abbrev event_window : Uuid → ℕ → Option ConversationEvent → Store → List ConversationEvent
  event_window c limit found s = take (suc limit) (
      o.find_sorted ConversationEvent
        (λ x. x.conversation_id == c && before_event found x.created_at) (λ x. x.created_at) false
        s.events)
