-- ===== src/Websocket/Sync.antt =====
-- src/services/offline-sync.service.ts, src/websocket/handlers/presence-handler.ts, and
-- `authenticate` of src/websocket/websocket-server.ts, without its log.
pub mod Delivered
use messinger_backend.Prelude.{
  Bool, true, false, not, ◌&&◌, Option, none, some, List, [], ◌∷◌, ◌++◌, map, filter, includes, ltb,
  ◌==◌, ℕ,
}
use messinger_backend.Prelude.Assoc.{Assoc, lookup, insert}
use messinger_backend.Types.{
  Uuid, Date, MessageStatus, sent, delivered, read, GroupInvitationStatus, pending, accepted,
  rejected, expired,
}
use messinger_backend.Entities.{GroupInvitation, Message, MessageDelivery, User}
use messinger_backend.Orm.{Orm}
use messinger_backend.Cipher.{Cipher}
use messinger_backend.Store.{Store, Action, pure, gets, modify, ◌>>=◌, ◌>>◌}
use messinger_backend.Messages.Sending.{decipher_message}
use messinger_backend.Websocket.Connections.{
  Connection, Manager, attach_user, get_user_connections, get_all_connections,
}
use messinger_backend.Websocket.Listeners.{
  ServerMessage, pending_message, pending_invitation, presence_online, presence_offline,
  send_to_all,
}
use messinger_backend.Websocket.Handlers.{Sends, require_authentication}

-- `status === MessageStatus.SENT`
abbrev pub is_sent : MessageStatus → Bool
is_sent sent = true
is_sent delivered = false
is_sent read = false

-- `status === GroupInvitationStatus.PENDING`
abbrev pub is_pending : GroupInvitationStatus → Bool
is_pending pending = true
is_pending accepted = false
is_pending rejected = false
is_pending expired = false

abbrev pub pending_delivery : Uuid → MessageDelivery → Bool
pending_delivery user_id d = d.user_id == user_id && is_sent d.status

module _ ⦃e : Cipher⦄ where
  -- The entries of `messagesMap`, in the order of the query.
  unfoldable pub read_all : List Message → Action (List (Uuid × ServerMessage))
  unfolding decipher_message
  read_all [] = pure []
  read_all (m ∷ ms) = do
    content ← decipher_message m.ciphered_content m.iv m.auth_tag
    rest ← read_all ms
    pure ((m.id, pending_message m.id m.conversation_id m.sender_id m.created_at content) ∷ rest)

-- `new Map(entries)`
abbrev pub map_of : List (Uuid × ServerMessage) → Assoc ServerMessage → Assoc ServerMessage
map_of [] m = m
map_of ((id, message) ∷ entries) m = map_of entries (insert id message m)

module _ (is_open : ℕ → Bool) (m : Manager) where
  -- The loop over `pendingDeliveries`.
  unfoldable pub send_pending : List MessageDelivery → Assoc ServerMessage → List Connection → Sends
  send_pending [] messages connections = []
  send_pending (d ∷ ds) messages connections =
      let rest = send_pending ds messages connections in
      elim (lookup d.message_id messages) [
        | none ↦ rest
        | some message ↦ send_to_all is_open m connections message ++ rest
      ]

  -- The loop over `invitations`.
  unfoldable pub send_invitations : List GroupInvitation → List Connection → Sends
  send_invitations [] connections = []
  send_invitations (i ∷ is_) connections =
      send_to_all is_open m connections (pending_invitation i.id i.conversation_id)
      ++ send_invitations is_ connections

  module _ ⦃o : Orm⦄ ⦃e : Cipher⦄ where
    abbrev pub mark_delivered : Uuid → List Uuid → Action (Unit {0})
    mark_delivered user_id ids = modify (λ s. record s {
      deliveries =
          o.update MessageDelivery (λ d. d.user_id == user_id && includes ids d.message_id)
            (λ d. record d { status = delivered; updated_at = s.clock }) s.deliveries;
    })

    -- What follows once there are pending deliveries and connections.
    abbrev pub deliver_pending :
        Uuid → List MessageDelivery → Assoc ServerMessage → List Connection → Action Sends
    deliver_pending user_id deliveries messages [] = pure []
    deliver_pending user_id deliveries messages (c ∷ cs) = do
      mark_delivered user_id (map (λ d. d.message_id) deliveries)
      pure (send_pending deliveries messages (c ∷ cs))

    abbrev pub sync_deliveries : Uuid → List MessageDelivery → Action Sends
    sync_deliveries user_id [] = pure []
    sync_deliveries user_id (d ∷ ds) = do
      messages ← gets (λ s.
          o.find_sorted Message (λ x. includes (map (λ y. y.message_id) (d ∷ ds)) x.id)
            (λ x. x.created_at) true s.messages)
      entries ← read_all messages
      deliver_pending user_id (d ∷ ds) (map_of entries []) (get_user_connections user_id m)

    unfoldable pub sync_pending_messages : Uuid → Action Sends
    unfolding read_all send_pending
    sync_pending_messages user_id = do
      deliveries ← gets (λ s.
          o.find_sorted MessageDelivery (pending_delivery user_id) (λ d. d.created_at) true
            s.deliveries)
      sync_deliveries user_id deliveries

  module _ ⦃o : Orm⦄ where
    unfoldable pub sync_pending_group_invitations : Uuid → Action Sends
    unfolding send_invitations
    sync_pending_group_invitations user_id = do
      invitations ← gets (λ s.
          o.find GroupInvitation
            (λ i. i.target_id == user_id && is_pending i.status && ltb s.clock i.expires_at)
            s.invitations)
      pure (send_invitations invitations (get_user_connections user_id m))

    -- `userService.updateLastSeenAt`
    unfoldable pub update_last_seen_at : Uuid → Action Date
    update_last_seen_at user_id = do
      now ← gets (λ s. s.clock)
      modify (λ s. record s {
        users =
            o.update User (λ u. u.id == user_id)
              (λ u. record u { last_seen_at = some now; updated_at = now }) s.users;
      })
      pure now

    unfoldable pub presence_online_handler : Connection → Action Sends
    presence_online_handler c = do
      user_id ← require_authentication c
      pure (
          send_to_all is_open m (filter (λ d. not (d.id == c.id)) (get_all_connections m))
            (presence_online user_id))

    unfoldable pub presence_offline_handler : Connection → Action Sends
    unfolding update_last_seen_at
    presence_offline_handler c = do
      user_id ← require_authentication c
      last_seen_at ← update_last_seen_at user_id
      pure (send_to_all is_open m (get_all_connections m) (presence_offline user_id last_seen_at))
