-- ===== src/Store.antt =====
-- The database, the clock, and what the event emitter has been given: the state of the services.
-- An `async` method is an action on it, which resolves to a value or rejects with an exception.
pub mod Constraints
use messinger_backend.Prelude.{ℕ, ◌+◌, Bool, true, false, Option, none, some, List, [], ◌∷◌, ◌++◌}
use messinger_backend.Types.{Uuid, Date}
use messinger_backend.Exceptions.{Exception, query_failed, Result, ok, err}
use messinger_backend.Entities.{
  Conversation, ConversationMember, ConversationEvent, GroupInvitation, User, Session, Message,
  MessageDelivery, MessageAttachment, PendingUpload, PushSubscription,
}
use messinger_backend.Orm.{Orm}

-- The payloads of `GroupEvents` (src/events/group-events.ts), by the name of the event.
pub data GroupEvent : Type 0 where
  member_left : (conversation_id user_id : Uuid) (members : List ConversationMember) → GroupEvent
  member_removed :
      (conversation_id actor_id removed_user_id : Uuid) (members : List ConversationMember)
      → GroupEvent
  ownership_transferred :
      (conversation_id previous_owner_id new_owner_id : Uuid) (members : List ConversationMember)
      → GroupEvent
  group_deleted : (conversation_id : Uuid) (members : List ConversationMember) → GroupEvent

pub record Store : Type 0 where
  pub conversations : List Conversation
  pub members : List ConversationMember
  pub events : List ConversationEvent
  pub invitations : List GroupInvitation
  pub users : List User
  pub sessions : List Session
  pub messages : List Message
  pub deliveries : List MessageDelivery
  pub attachments : List MessageAttachment
  pub uploads : List PendingUpload
  pub subscriptions : List PushSubscription
  -- The keys of the objects in the R2 bucket, which is no part of the database.
  pub bucket : List ℕ
  -- The time at which the running operation reads the clock.
  pub clock : Date
  -- How many ids have been generated.
  pub serial : ℕ
  -- The events given to `groupEvents.emit`, the latest last.
  pub emitted : List GroupEvent
  -- The endpoints to which `webPush.sendNotification` was called, the latest last.
  pub pushed : List ℕ

abbrev pub Action : Type 0 → Type 0
Action A = Store → Result A × Store

module _ {A : Type 0} where
  abbrev pub pure : A → Action A
  pure a s = (ok a, s)

  abbrev pub throw : Exception → Action A
  throw e s = (err e, s)

  abbrev pub gets : (Store → A) → Action A
  gets f s = (ok (f s), s)

abbrev pub modify : (Store → Store) → Action (Unit {0})
modify f s = (ok tt, f s)

abbrev pub continue : {A B : Type 0} → (A → Action B) → Result A × Store → Result B × Store
continue f (ok a, s) = f a s
continue f (err e, s) = (err e, s)

infixl 5 ◌>>=◌ ◌>>◌
abbrev pub ◌>>=◌ : {A B : Type 0} → Action A → (A → Action B) → Action B
◌>>=◌ m f s = continue f (m s)

abbrev pub ◌>>◌ : {A B : Type 0} → Action A → Action B → Action B
m >> k = m >>= λ _. k

-- `if (test) { throw e; }`
abbrev pub throw_if : Bool → Exception → Action (Unit {0})
throw_if c e s = (elim c [ true ↦ err e | false ↦ ok tt ], s)

-- `if (!value) { throw e; }`, after which the value is not null.
abbrev pub or_throw : {A : Type 0} → Option A → Exception → Action A
or_throw o e s = (elim o [ none ↦ err e | some a ↦ ok a ], s)

-- `await` of a query that the server may refuse.
abbrev pub or_fail : {A : Type 0} → Option A → Action A
or_fail o = or_throw o query_failed

-- The database of an earlier store; what the code did outside of it stays done.
abbrev pub back : Store → Store → Store
back s s' = record s { bucket = s'.bucket; emitted = s'.emitted; pushed = s'.pushed }

module _ ⦃o : Orm⦄ where
  -- A generated primary key.
  abbrev pub generate : Action Uuid
  generate s = (ok (o.uuid s.serial), record s { serial = s.serial + 1 })

  abbrev pub transaction : {A : Type 0} → Action A → Action A
  transaction {A} work = o.transaction Store A back work

-- `groupEvents.emit`
abbrev pub emit : GroupEvent → Action (Unit {0})
emit e = modify (λ s. record s { emitted = s.emitted ++ e ∷ [] })
