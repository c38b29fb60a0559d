-- ===== src/Websocket/Handlers/Guarded.antt =====
-- Who is answered at all.
use messinger_backend.Prelude.{ℕ, ◌≡◌, refl, Bool, none, [], arith}
use messinger_backend.Exceptions.{unauthorized}
use messinger_backend.Orm.{Orm}
use messinger_backend.Packages.{Packages}
use messinger_backend.R2.{R2}
use messinger_backend.Cipher.{Cipher}
use messinger_backend.Push.{WebPush}
use messinger_backend.Store.{Store}
use messinger_backend.Websocket.Connections.{Connection, Manager}
use messinger_backend.Websocket.Listeners.{error, send_message}
use messinger_backend.Websocket.Handlers.{
  send_private_message, private_message_handler, ClientMessage, Sends, authenticated_user, dispatch,
  send_group_message, message_delivered, message_read, group_invite_member, group_invitation_accept,
  group_invitation_reject, typing_start, typing_stop, unregistered, group_message_handler,
  message_delivery_handler, invite_group_member_handler, accept_group_invitation_handler,
  reject_group_invitation_handler, typing_start_handler,
}

-- An error for the connection itself, and for an event without a handler nothing.
abbrev pub only_refusal : (ℕ → Bool) → Manager → Connection → ClientMessage → Sends
only_refusal is_open m c unregistered = []
only_refusal is_open m c _ =
    send_message is_open m c (error (unauthorized "AUTHENTICATION_REQUIRED"))

module _ ⦃o : Orm⦄ ⦃k : Packages⦄ ⦃r : R2⦄ ⦃e : Cipher⦄ ⦃w : WebPush⦄ where
  -- A message for the dispatcher, that is any message but the one with a token, from a connection
  -- without a user or without a session changes nothing in the database and the rest of the store,
  -- and nobody else hears of it: for an event that has a handler, the connection is told that it has
  -- to authenticate, if its socket is open, and for any other event nothing is sent.
  pub dispatch_guarded :
      (is_open : ℕ → Bool) (m : Manager) (c : Connection) (message : ClientMessage) (s : Store)
      → authenticated_user c.user_id c.session_id ≡ none
      → dispatch is_open m c message s ≡ (only_refusal is_open m c message, s)
  unfolding dispatch private_message_handler group_message_handler message_delivery_handler
      invite_group_member_handler accept_group_invitation_handler reject_group_invitation_handler
      typing_start_handler
  dispatch_guarded is_open m c (send_private_message payload) s h = ground arith
  dispatch_guarded is_open m c (send_group_message payload) s h = ground arith
  dispatch_guarded is_open m c (message_delivered payload) s h = ground arith
  dispatch_guarded is_open m c (message_read payload) s h = ground arith
  dispatch_guarded is_open m c (group_invite_member payload) s h = ground arith
  dispatch_guarded is_open m c (group_invitation_accept payload) s h = ground arith
  dispatch_guarded is_open m c (group_invitation_reject payload) s h = ground arith
  dispatch_guarded is_open m c (typing_start payload) s h = ground arith
  dispatch_guarded is_open m c (typing_stop payload) s h = ground arith
  dispatch_guarded is_open m c unregistered s h = refl
