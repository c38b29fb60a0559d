-- ===== src/Websocket/Listeners.antt =====
-- src/events/group-listeners.ts and src/websocket/send-message.ts: what the sockets are sent when a
-- group event is emitted. No code emits MEMBER_JOINED, so its listener is left out.
pub mod Audience
use messinger_backend.Prelude.{
  ℕ, Bool, List, [], ◌∷◌, ◌++◌, map, foldl, Option, String, if◌then◌else◌,
}
use messinger_backend.Types.{Uuid, Date, MessageStatus}
use messinger_backend.Exceptions.{Exception}
use messinger_backend.Entities.{ConversationMember, MessageAttachment}
use messinger_backend.Store.{
  GroupEvent, member_left, member_removed, ownership_transferred, group_deleted,
}
use messinger_backend.Messages.Sending.{SavedPrivateMessage}
use messinger_backend.Websocket.Connections.{Connection, Manager, get_user_connections, set_add}

-- The messages to a client, with the fields of `data`.
pub data ServerMessage : Type 0 where
  group_member_left : (conversation_id user_id : Uuid) → ServerMessage
  group_member_removed : (conversation_id actor_id removed_user_id : Uuid) → ServerMessage
  group_owner_changed : (conversation_id previous_owner_id new_owner_id : Uuid) → ServerMessage
  group_was_deleted : (conversation_id : Uuid) → ServerMessage
  new_message message_sent :
      (sender_id message_id conversation_id : Uuid) (content : String) (created_at : Date)
      (attachments : List MessageAttachment)
      → ServerMessage
  -- NEW_MESSAGE and MESSAGE_SENT of a private message: their fields are taken from the saved message
  -- and the rows of its conversation; the confirmation is empty if there was no receiver.
  new_private_message : SavedPrivateMessage → ServerMessage
  private_message_sent : Option SavedPrivateMessage → ServerMessage
  message_status_updated : (message_id user_id : Uuid) (status : MessageStatus) → ServerMessage
  group_invitation :
      (conversation_id : Uuid) (group_name : Option String) (invited_by : Uuid) → ServerMessage
  group_member_joined : (conversation_id user_id : Uuid) → ServerMessage
  typing_started typing_stopped : (user_id : Uuid) → ServerMessage
  presence_online : (user_id : Uuid) → ServerMessage
  presence_offline : (user_id : Uuid) (last_seen_at : Date) → ServerMessage
  -- NEW_MESSAGE and GROUP_INVITATION as `offlineSyncService` sends them.
  pending_message :
      (id conversation_id : Uuid) (sender_id : Option Uuid) (created_at : Date) (content : String)
      → ServerMessage
  pending_invitation : (invitation_id conversation_id : Uuid) → ServerMessage
  -- What `sendError` makes of the exception.
  error : Exception → ServerMessage

-- What the loops pass to `getUserConnections`: the id of a user or, in the listener of
-- GROUP_DELETED, a whole row, which is no key of the map.
pub data Key : Type 0 where
  user_key : Uuid → Key
  row_key : ConversationMember → Key

-- `member.userId` of each of the members.
abbrev pub user_ids : List ConversationMember → List Uuid
user_ids = map (λ member. member.user_id)

-- The set of `MEMBER_REMOVED`.
abbrev pub removal_users : Uuid → List ConversationMember → List Uuid
removal_users removed_user_id members =
    foldl (λ users member. set_add member.user_id users) (set_add removed_user_id []) members

module _ (is_open : ℕ → Bool) (m : Manager) where
  -- The messages that a socket is given, with the id of its connection.
  unfoldable pub send_message : Connection → ServerMessage → List (Uuid × ServerMessage)
  send_message c message = if is_open c.socket then (c.id, message) ∷ [] else []

  unfoldable pub send_to_all : List Connection → ServerMessage → List (Uuid × ServerMessage)
  unfolding send_message
  send_to_all [] message = []
  send_to_all (c ∷ cs) message = send_message c message ++ send_to_all cs message

  unfoldable pub connections_at : Key → List Connection
  connections_at (user_key u) = get_user_connections u m
  connections_at (row_key row) = []

  unfoldable pub broadcast : List Key → ServerMessage → List (Uuid × ServerMessage)
  unfolding send_to_all connections_at
  broadcast [] message = []
  broadcast (key ∷ keys) message =
      send_to_all (connections_at key) message ++ broadcast keys message

  pub on_group_event : GroupEvent → List (Uuid × ServerMessage)
  unfolding broadcast
  on_group_event (member_left c u members) =
      broadcast (map user_key (user_ids members)) (group_member_left c u)
  on_group_event (member_removed c a r members) =
      broadcast (map user_key (removal_users r members)) (group_member_removed c a r)
  on_group_event (ownership_transferred c p n members) =
      broadcast (map user_key (user_ids members)) (group_owner_changed c p n)
  on_group_event (group_deleted c members) = broadcast (map row_key members) (group_was_deleted c)
