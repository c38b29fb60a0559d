-- ===== src/Websocket/Server.antt =====
-- src/websocket/websocket-server.ts: the heartbeat, the authentication of a connection and the
-- handler of its messages, without timers and log. The close handler is in Connections.
pub mod Authentication
use messinger_backend.Prelude.{
  ℕ, Bool, true, false, Option, none, some, List, [], ◌∷◌, ◌++◌, ◌==◌, if◌then◌else◌,
}
use messinger_backend.Prelude.Assoc.{Assoc, lookup, insert}
use messinger_backend.Types.{Uuid}
use messinger_backend.Exceptions.{Result, ok, err}
use messinger_backend.Orm.{Orm}
use messinger_backend.Packages.{Packages}
use messinger_backend.Tokens.{Tokens}
use messinger_backend.R2.{R2}
use messinger_backend.Cipher.{Cipher}
use messinger_backend.Store.{Store, Action}
use messinger_backend.Auth.Service.{get_ws_session}
use messinger_backend.Websocket.Connections.{Connection, Manager, attach_user, set_session}
use messinger_backend.Websocket.Listeners.{error, send_message}
use messinger_backend.Websocket.Handlers.{Sends}
use messinger_backend.Websocket.Sync.{
  presence_online_handler, sync_pending_messages, sync_pending_group_invitations,
}

-- A socket of `ws.clients`, with its `isAlive`.
pub record Client : Type 0 where
  pub socket : ℕ
  pub is_alive : Bool

-- One round of the heartbeat: the sockets that are terminated, and the clients that are left, which
-- have been sent a ping.
unfoldable pub heartbeat : List Client → List ℕ × List Client
heartbeat [] = ([], [])
heartbeat (c ∷ cs) =
    let rest = heartbeat cs in
    if c.is_alive
    then (rest.0, record c { is_alive = false } ∷ rest.1)
    else (c.socket ∷ rest.0, rest.1)

-- The handler of `pong`.
unfoldable pub pong : ℕ → List Client → List Client
pong socket [] = []
pong socket (c ∷ cs) =
    (if c.socket == socket then record c { is_alive = true } else c) ∷ pong socket cs

-- What has been sent so far, how the last step ended, and the store.
abbrev pub Progress : Type 0
Progress = Sends × Result (Unit {0}) × Store

-- The next step, unless an exception was thrown.
abbrev pub after_sends : Sends → Result Sends × Store → Progress
after_sends sends (ok more, s) = (sends ++ more, ok tt, s)
after_sends sends (err x, s) = (sends, err x, s)

abbrev pub and_then : Progress → Action Sends → Progress
and_then (sends, ok u, s) work = after_sends sends (work s)
and_then (sends, err x, s) work = (sends, err x, s)

module _ (is_open : ℕ → Bool) where
  module _ ⦃o : Orm⦄ ⦃e : Cipher⦄ where
    -- The presence and the two synchronisations, for the object of the connection.
    unfoldable pub announce : Option Connection → Uuid → Manager → Store → Progress
    unfolding presence_online_handler sync_pending_messages sync_pending_group_invitations
    announce none user_id m s = ([], ok tt, s)
    announce (some c) user_id m s =
        and_then
          (and_then (and_then ([], ok tt, s) (presence_online_handler is_open m c))
            (sync_pending_messages is_open m user_id))
          (sync_pending_group_invitations is_open m user_id)

    -- The manager is changed before anything can fail.
    unfoldable pub authenticate_connection :
        Uuid → Uuid → Uuid → Manager → Store → Manager × Progress
    unfolding announce attach_user
    authenticate_connection id user_id session_id m s =
        let attached : Manager = attach_user id user_id (set_session id session_id m) in
        (attached, announce (lookup id attached.objects) user_id attached s)

  -- `catch (error) { sendError(connection, error); }`
  abbrev pub or_report : Manager → Connection → Progress → Sends × Store
  or_report m c (sends, ok u, s) = (sends, s)
  or_report m c (sends, err x, s) = (sends ++ send_message is_open m c (error x), s)

  module _ ⦃o : Orm⦄ ⦃t : Tokens⦄ ⦃e : Cipher⦄ where
    abbrev pub accept_session :
        Connection → Manager → Result (Uuid × Uuid) × Store → Manager × Sends × Store
    accept_session c m (ok (user_id, session_id), s) =
        let accepted = authenticate_connection c.id user_id session_id m s in
        let reported = or_report accepted.0 c accepted.1 in (accepted.0, reported.0, reported.1)
    accept_session c m (err x, s) = (m, send_message is_open m c (error x), s)

    -- The answer to AUTH_TOKEN_SENT.
    unfoldable pub on_auth_token : Connection → ℕ → Manager → Store → Manager × Sends × Store
    unfolding get_ws_session authenticate_connection
    on_auth_token c access_token m s = accept_session c m (get_ws_session access_token s)
