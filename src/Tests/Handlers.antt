-- ===== src/Tests/Handlers.antt =====
-- The theorems on the messages of a client, on the small database and a small server.
use messinger_backend.Prelude.{ℕ, ◌≡◌, ◌⊎◌, refl, true, false, some, none, [], ◌∷◌, any}
use messinger_backend.Prelude.Assoc.{lookup}
use messinger_backend.Types.{Uuid}
use messinger_backend.Exceptions.{Exception, IsOk}
use messinger_backend.Orm.{first_orm, first_orm-IsOrm}
use messinger_backend.Packages.{plain_packages}
use messinger_backend.R2.{plain_r2}
use messinger_backend.Cipher.{plain_cipher}
use messinger_backend.Store.{Store}
use messinger_backend.Websocket.Connections.{
  Connection, Manager, create_connection_manager, register, attach_user, set_session,
  get_connection, get_user_connections, resolve,
}
use messinger_backend.Websocket.Listeners.{error, message_sent, new_message, send_message}
use messinger_backend.Websocket.Handlers.{Sends, typing_start, dispatch}
use messinger_backend.Websocket.Handlers.Guarded.{only_refusal, dispatch_guarded}
use messinger_backend.Websocket.Sync.{
  pending_delivery, sync_pending_messages, read_all, send_pending,
}
use messinger_backend.Websocket.Sync.Delivered.{sync_pending_messages-none_pending}
use messinger_backend.Push.{WebPush, delivered}
use messinger_backend.Websocket.Server.{on_auth_token}
use messinger_backend.Websocket.Server.Authentication.{IsOpenToken, signed_in, on_auth_token_lem}
use messinger_backend.Tests.Data.{store, plain_tokens}
use messinger_backend.Tests.Messages.{delivery}

-- The connections 1 of the user 10 and 2 of the user 11.
abbrev opened : Manager
opened = register 2 0 9 (register 1 0 8 create_connection_manager)

abbrev server : Manager
server = attach_user 2 11 (set_session 2 61 (attach_user 1 10 (set_session 1 60 opened)))

abbrev connection : ℕ → ℕ → Connection
connection id socket = record {
  id = id;
  socket = socket;
  connected_at = 0;
  user_id = none;
  session_id = none;
}

abbrev of_user_10 : Connection
of_user_10 = record (connection 1 8) { user_id = some 10; session_id = some 60 }

-- A push service that takes everything.
abbrev no_push : WebPush
no_push = record { send_notification = λ p payload. delivered }

dispatch_guarded_example :
    dispatch
      (λ socket. true)
      server
      ⦃o = first_orm⦄
      ⦃k = plain_packages⦄
      ⦃r = plain_r2⦄
      ⦃e = plain_cipher⦄
      ⦃w = no_push⦄
      (connection 3 7)
      (typing_start (some (1, true)))
      store
    ≡ (only_refusal (λ socket. true) server (connection 3 7) (typing_start (some (1, true))), store)
dispatch_guarded_example =
    dispatch_guarded ⦃o = first_orm⦄ ⦃k = plain_packages⦄ ⦃r = plain_r2⦄ ⦃e = plain_cipher⦄
      ⦃w = no_push⦄ (λ socket. true) server (connection 3 7) (typing_start (some (1, true))) store
      refl

-- A delivery to the user 10 that is pending.
abbrev pending_store : Store
pending_store = record store { deliveries = record delivery { user_id = 10 } ∷ [] }

connected :
    get_user_connections 10 server
    ≡ record (connection 1 8) { user_id = some 10; session_id = some 60 } ∷ []
unfolding register attach_user get_connection get_user_connections resolve
connected = refl

synchronised :
    IsOk
      (sync_pending_messages
        (λ socket. true)
        server
        ⦃o = first_orm⦄
        ⦃e = plain_cipher⦄
        10
        pending_store).0
unfolding sync_pending_messages read_all send_pending register attach_user get_connection
    get_user_connections resolve
synchronised = tt

sync_pending_messages-none_pending_example :
    any
      (pending_delivery 10)
      (sync_pending_messages
        (λ socket. true)
        server
        ⦃o = first_orm⦄
        ⦃e = plain_cipher⦄
        10
        pending_store).1.deliveries
    ≡ false
sync_pending_messages-none_pending_example =
    sync_pending_messages-none_pending ⦃o = first_orm⦄ ⦃e = plain_cipher⦄ first_orm-IsOrm
      (λ socket. true) server 10
      (record (connection 1 8) { user_id = some 10; session_id = some 60 }) [] pending_store
      connected synchronised

-- What the message "hi" of the user 10 makes the server send.
abbrev sends_of_hi : Sends
sends_of_hi = (2, new_message 10 500 1 "hi" 50 []) ∷ (1, message_sent 10 500 1 "hi" 50 []) ∷ []

abbrev registered : Connection
registered = record (connection 1 8) { user_id = some 10; session_id = some 60 }

found_registered : lookup 1 server.objects ≡ some registered
unfolding register attach_user
found_registered = refl

abbrev answered : Manager × Sends × Store
answered =
    on_auth_token (λ socket. true) ⦃o = first_orm⦄ ⦃t = plain_tokens⦄ ⦃e = plain_cipher⦄ registered
      9 server store

on_auth_token_lem_example :
    ((x : Exception) × (answered
        ≡ (server, send_message (λ socket. true) server registered (error x), store)))
    ⊎ ((user_id session_id : Uuid) × IsOpenToken ⦃t = plain_tokens⦄ 9 user_id session_id store
        × (lookup 1 answered.0.objects ≡ some (signed_in user_id session_id registered)))
on_auth_token_lem_example =
    on_auth_token_lem ⦃o = first_orm⦄ ⦃t = plain_tokens⦄ ⦃e = plain_cipher⦄ first_orm-IsOrm
      (λ socket. true) registered 9 server store found_registered
