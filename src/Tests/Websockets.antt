-- ===== src/Tests/Websockets.antt =====
-- The theorems on the managers of src/websocket, on a small server.
use messinger_backend.Prelude.{
  ◌≡◌, refl, true, none, some, ◌&&◌, includes, length, ◌==◌, if◌then◌else◌,
}
use messinger_backend.Prelude.Assoc.{lookup}
use messinger_backend.Websocket.Connections.{
  Connection, Manager, create_connection_manager, register, attach_user, set_session,
  get_connection, get_user_connections, close,
}
use messinger_backend.Websocket.Connections.Invariant.{attached_to}
use messinger_backend.Websocket.Connections.Presence.{
  Reach, here, next, registers, authenticates, ids, reached_connections_iff, close_announces_last,
}

-- A connection 1 of the user 10, and a connection 2 of nobody.
abbrev opened : Manager
opened = register 2 0 9 (register 1 0 8 create_connection_manager)

abbrev attached : Manager
attached = attach_user 1 10 (set_session 1 60 opened)

abbrev connection : Connection
connection = record { id = 1; socket = 8; connected_at = 0; user_id = none; session_id = none }

reached : Reach create_connection_manager attached
unfolding register get_connection
reached =
    next (next (next here (registers 1 0 8 refl)) (registers 2 0 9 refl))
      (authenticates 1 10 60 connection refl refl)

reached_connections_iff_example :
    includes (ids (get_user_connections 10 attached)) 1
    ≡ (includes attached.connections 1 && attached_to (lookup 1 attached.objects) 10)
reached_connections_iff_example = reached_connections_iff attached 10 1 reached

known : includes attached.connections 1 ≡ true
unfolding register attach_user
known = refl

of_user : attached_to (lookup 1 attached.objects) 10 ≡ true
unfolding register attach_user
of_user = refl

close_announces_last_example :
    (close 1 attached).0
    ≡ (if length (get_user_connections 10 (close 1 attached).1) == 0 then some 10 else none)
close_announces_last_example = close_announces_last attached 1 10 reached known of_user
