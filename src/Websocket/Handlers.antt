-- ===== src/Websocket/Handlers.antt =====
-- src/websocket/handlers, authenticate-guard.ts, dispatcher.ts and register-event-handlers.ts: what a
-- message of a client does. A push notification, for which the handler does not wait, is taken to run
-- to its end, and its rejection is dropped. The managers are only read. A payload is what the schema of the event makes of the message data, or `none` if the schema refuses it.
pub mod Guarded
pub mod Notified
use messinger_backend.Prelude.{
  Bool, not, Option, none, some, List, [], ◌∷◌, ◌++◌, String, map, ◌==◌, is_some, if◌then◌else◌, ℕ,
}
use messinger_backend.Types.{Uuid, MessageStatus}
use messinger_backend.Exceptions.{Result, ok, err, unauthorized, validation}
use messinger_backend.Entities.{Message, User}
use messinger_backend.Orm.{Orm}
use messinger_backend.Packages.{Packages}
use messinger_backend.R2.{R2}
use messinger_backend.Cipher.{Cipher}
use messinger_backend.Store.{Store, Action, pure, gets, modify, or_throw, ◌>>=◌, ◌>>◌}
use messinger_backend.Repositories.{find_member, get_members}
use messinger_backend.Conversation.Invitation.{
  is_removed, validate_group_invitation, accept_group_invitation, reject_group_invitation,
}
use messinger_backend.Messages.Sending.{
  receivers, create_group_message, create_private_message, SavedPrivateMessage,
}
use messinger_backend.Messages.Delivery.{confirm_delivery}
use messinger_backend.Push.{WebPush, PushPayload, send_to_user}
use messinger_backend.Websocket.Connections.{
  Connection, Manager, get_all_connections, get_user_connections,
}
use messinger_backend.Websocket.Listeners.{
  ServerMessage, new_message, message_sent, new_private_message, private_message_sent,
  message_status_updated, group_invitation, group_member_joined, typing_started, typing_stopped,
  presence_online, presence_offline, error, user_key, user_ids, send_message, send_to_all,
  broadcast,
}

-- The messages that are sent, with the ids of their connections.
abbrev pub Sends : Type 0
Sends = List (Uuid × ServerMessage)

-- The events that `registerEventHandlers` has a handler for, with their payloads.
pub data ClientMessage : Type 0 where
  -- The receiver, the content and the ids of the attachments.
  send_private_message : Option (Uuid × String × List Uuid) → ClientMessage
  -- The conversation, the content and the ids of the attachments.
  send_group_message : Option (Uuid × String × List Uuid) → ClientMessage
  -- The conversation, the message and the status.
  message_delivered message_read : Option (Uuid × Uuid × MessageStatus) → ClientMessage
  -- The conversation and the target.
  group_invite_member : Option (Uuid × Uuid) → ClientMessage
  group_invitation_accept group_invitation_reject : Option Uuid → ClientMessage
  -- The conversation, and `isTyping`.
  typing_start typing_stop : Option (Uuid × Bool) → ClientMessage
  -- A type that no handler is registered for.
  unregistered : ClientMessage

abbrev pub authenticated_user : Option Uuid → Option Uuid → Option Uuid
authenticated_user none session_id = none
authenticated_user (some user_id) none = none
authenticated_user (some user_id) (some session_id) = some user_id

-- `requireAuthentication(connection)`, and `connection.userId!` after it.
abbrev pub require_authentication : Connection → Action Uuid
require_authentication c =
    or_throw (authenticated_user c.user_id c.session_id) (unauthorized "AUTHENTICATION_REQUIRED")

-- `Schema.parse(message.data)`, with what `dispatch` makes of a `ZodError`.
abbrev pub parse : {A : Type 0} → Option A → Action A
parse payload = or_throw payload (validation "INVALID_WS_MESSAGE_PAYLOAD")

module _ ⦃o : Orm⦄ where
  -- `delivery.message.senderId`
  abbrev pub sender_of : Uuid → Store → Option Uuid
  sender_of message_id s = elim (o.find_one Message (λ m. m.id == message_id) s.messages) [
    | none ↦ none
    | some m ↦ m.sender_id
  ]

-- `getUserConnections` of a sender who may be gone.
abbrev pub keys_of : Option Uuid → List Uuid
keys_of none = []
keys_of (some u) = u ∷ []

abbrev pub typing_message : Bool → Uuid → ServerMessage
typing_message is_typing user_id =
    if is_typing then typing_started user_id else typing_stopped user_id

-- The data of the last receiver, if there was one.
abbrev pub last_data : List Uuid → SavedPrivateMessage → Option SavedPrivateMessage
last_data [] saved = none
last_data (u ∷ us) saved = some saved

-- The argument of `sendToUser`.
abbrev pub push_payload : SavedPrivateMessage → PushPayload
push_payload saved = record {
  title = saved.sender_name;
  body = saved.content;
  icon = some "/pwa-192x192.png";
  conversation_id = saved.conversation.id;
  message_id = saved.id;
}

module _ (m : Manager) ⦃o : Orm⦄ ⦃w : WebPush⦄ where
  -- `if (connections.length === 0) { void pushNotificationService.sendToUser(…); }`
  unfoldable pub push_if_offline : Uuid → PushPayload → Store → Store
  unfolding send_to_user get_user_connections
  push_if_offline user_id payload s = elim (get_user_connections user_id m) [
    | [] ↦ (send_to_user user_id payload s).1
    | c ∷ cs ↦ s
  ]

  unfoldable pub push_to_offline : List Uuid → PushPayload → Action (Unit {0})
  unfolding push_if_offline
  push_to_offline [] payload = pure tt
  push_to_offline (u ∷ us) payload =
      modify (push_if_offline u payload) >> push_to_offline us payload

module _ (is_open : ℕ → Bool) (m : Manager) where
  abbrev pub to_users : List Uuid → ServerMessage → Sends
  to_users users message = broadcast is_open m (map user_key users) message

  module _ ⦃o : Orm⦄ ⦃r : R2⦄ ⦃e : Cipher⦄ where
    unfoldable pub group_message_handler :
        Connection → Option (Uuid × String × List Uuid) → Action Sends
    unfolding create_group_message
    group_message_handler c payload = do
      sender_id ← require_authentication c
      dto ← parse payload
      sent ← create_group_message sender_id dto.0 dto.1 dto.2
      let saved = sent.0
      pure (
          to_users (user_ids (receivers sender_id sent.1)) (
            new_message sender_id saved.id dto.0 saved.content saved.created_at
              saved.saved_attachments)
          ++ send_message is_open m c (
              message_sent sender_id saved.id dto.0 saved.content saved.created_at
                saved.saved_attachments))

  module _ ⦃o : Orm⦄ ⦃k : Packages⦄ ⦃r : R2⦄ ⦃e : Cipher⦄ ⦃w : WebPush⦄ where
    unfoldable pub private_message_handler :
        Connection → Option (Uuid × String × List Uuid) → Action Sends
    unfolding create_private_message push_to_offline
    private_message_handler c payload = do
      sender_id ← require_authentication c
      dto ← parse payload
      sent ← create_private_message sender_id dto.0 dto.1 dto.2
      let saved = sent.0
      let users = user_ids (receivers sender_id sent.1)
      push_to_offline m users (push_payload saved)
      pure (
          to_users users (new_private_message saved)
          ++ send_message is_open m c (private_message_sent (last_data users saved)))

  module _ ⦃o : Orm⦄ where
    unfoldable pub message_delivery_handler :
        Connection → Option (Uuid × Uuid × MessageStatus) → Action Sends
    unfolding confirm_delivery
    message_delivery_handler c payload = do
      user_id ← require_authentication c
      dto ← parse payload
      delivery ← confirm_delivery user_id dto.0 dto.1 dto.2
      sender ← gets (sender_of delivery.message_id)
      pure (
          to_users (keys_of sender)
            (message_status_updated delivery.message_id delivery.user_id dto.2))

  module _ ⦃o : Orm⦄ ⦃k : Packages⦄ where
    unfoldable pub invite_group_member_handler : Connection → Option (Uuid × Uuid) → Action Sends
    unfolding validate_group_invitation
    invite_group_member_handler c payload = do
      actor_id ← require_authentication c
      dto ← parse payload
      conversation ← validate_group_invitation actor_id dto.0 dto.1
      pure (to_users (dto.1 ∷ []) (group_invitation conversation.id conversation.name actor_id))

    unfoldable pub accept_group_invitation_handler : Connection → Option Uuid → Action Sends
    unfolding accept_group_invitation
    accept_group_invitation_handler c payload = do
      user_id ← require_authentication c
      conversation_id ← parse payload
      members ← accept_group_invitation conversation_id user_id
      pure (to_users (user_ids members) (group_member_joined conversation_id user_id))

    unfoldable pub reject_group_invitation_handler : Connection → Option Uuid → Action Sends
    unfolding reject_group_invitation
    reject_group_invitation_handler c payload = do
      user_id ← require_authentication c
      conversation_id ← parse payload
      reject_group_invitation conversation_id user_id
      pure []

  module _ ⦃o : Orm⦄ where
    unfoldable pub typing_start_handler : Connection → Option (Uuid × Bool) → Action Sends
    unfolding find_member get_members
    typing_start_handler c payload = do
      user_id ← require_authentication c
      dto ← parse payload
      member ← find_member dto.0 user_id
      members ← get_members dto.0
      pure (
          if not (is_some member)
          then []
          else if is_removed member
          then []
          else to_users (user_ids (receivers user_id members)) (typing_message dto.1 user_id))

  -- `try { … } catch (error) { sendError(connection, error); }`
  abbrev pub or_send_error : Connection → Result Sends × Store → Sends × Store
  or_send_error c (ok sends, s) = (sends, s)
  or_send_error c (err x, s) = (send_message is_open m c (error x), s)

  module _ ⦃o : Orm⦄ ⦃k : Packages⦄ ⦃r : R2⦄ ⦃e : Cipher⦄ ⦃w : WebPush⦄ where
    abbrev pub handler_of : Connection → ClientMessage → Action Sends
    handler_of c (send_private_message payload) = private_message_handler c payload
    handler_of c (send_group_message payload) = group_message_handler c payload
    handler_of c (message_delivered payload) = message_delivery_handler c payload
    handler_of c (message_read payload) = message_delivery_handler c payload
    handler_of c (group_invite_member payload) = invite_group_member_handler c payload
    handler_of c (group_invitation_accept payload) = accept_group_invitation_handler c payload
    handler_of c (group_invitation_reject payload) = reject_group_invitation_handler c payload
    handler_of c (typing_start payload) = typing_start_handler c payload
    handler_of c (typing_stop payload) = typing_start_handler c payload
    handler_of c unregistered = pure []

    unfoldable pub dispatch : Connection → ClientMessage → Store → Sends × Store
    dispatch c message s = or_send_error c (handler_of c message s)
