-- ===== src/Repositories/Events.antt =====
-- src/repositories/conversation-event.repository.ts: `createEvent` and `findByConversation`.
use mathlib.Core.Option
use messinger_backend.Prelude.{
  ℕ, suc, Bool, true, false, ◌&&◌, Option, none, some, List, [], ◌∷◌, ◌==◌, ltb, take,
}
use messinger_backend.Entities.{ConversationEvent}
use messinger_backend.Types.{Uuid, Date, ConversationEventType, group_created}
use messinger_backend.Orm.{Orm}
use messinger_backend.Store.{Action, pure, gets, modify, generate, ◌>>=◌, or_fail}
use messinger_backend.Store.Constraints.{admits_event}

-- `Partial<ConversationEvent>`
pub record NewEvent : Type 0 where
  pub conversation_id : Uuid
  pub actor_id : Uuid
  pub target_user_id : Option Uuid
  pub type : Option ConversationEventType

-- The default of the column `type`.
abbrev pub event_type : Option ConversationEventType → ConversationEventType
event_type none = group_created
event_type (some t) = t

module _ ⦃o : Orm⦄ where
  -- The row with its date as the driver reads it.
  abbrev pub read_event : ConversationEvent → ConversationEvent
  read_event e = record e { created_at = o.read_date e.created_at }

  unfoldable pub create_event : NewEvent → Action (Unit {0})
  create_event e = do
    id ← generate
    inserted ← gets (λ s.
        o.insert _ (admits_event s.conversations)
          (record {
            id = id;
            conversation_id = e.conversation_id;
            actor_id = e.actor_id;
            target_user_id = e.target_user_id;
            type = event_type e.type;
            created_at = s.clock;
          }
            ∷ [])
          s.events)
    table ← or_fail inserted
    modify (λ s. record s { events = table })

  -- The event of the cursor, in the conversation, with its date as it is read.
  unfoldable pub find_event_cursor : Uuid → Option Uuid → Action (Option ConversationEvent)
  find_event_cursor conversation_id none = pure none
  find_event_cursor conversation_id (some cursor) = gets (λ s.
      Option.map read_event
        (o.find_one _ (λ e. e.id == cursor && e.conversation_id == conversation_id) s.events))

  -- `createdAt: LessThan(…)`, if the cursor found an event.
  abbrev pub before_event : Option ConversationEvent → Date → Bool
  before_event none created_at = true
  before_event (some cursor) created_at = ltb created_at cursor.created_at

  unfoldable pub find_events : Uuid → ℕ → Option Uuid → Action (List ConversationEvent)
  unfolding find_event_cursor
  find_events conversation_id limit cursor = do
    found ← find_event_cursor conversation_id cursor
    gets (λ s. take (suc limit) (
        o.find_sorted _
          (λ e. e.conversation_id == conversation_id && before_event found e.created_at)
          (λ e. e.created_at) false s.events))
