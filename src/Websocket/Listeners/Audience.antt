-- ===== src/Websocket/Listeners/Audience.antt =====
-- Which sockets an event reaches.
use messinger_backend.Prelude.{
  ℕ, ◌≡◌, refl, Bool, false, ◌&&◌, ◌||◌, Option, none, some, List, [], ◌∷◌, arith, map, any,
  includes, ◌==◌,
}
use messinger_backend.Prelude.Rows.{any-append}
use messinger_backend.Prelude.Assoc.{lookup}
use messinger_backend.Types.{Uuid}
use messinger_backend.Entities.{ConversationMember}
use messinger_backend.Store.{
  GroupEvent, member_left, member_removed, ownership_transferred, group_deleted,
}
use messinger_backend.Websocket.Connections.{
  Connection, Manager, get_user_connections, resolve, ids_of,
}
use messinger_backend.Websocket.Connections.Invariant.{IsConsistent, attached_to}
use messinger_backend.Websocket.Listeners.{
  ServerMessage, user_key, send_message, send_to_all, connections_at, broadcast, user_ids,
}

-- The users who are told of the event.
abbrev pub is_told : GroupEvent → Uuid → Bool
is_told (member_left c u members) v = any (λ member. member.user_id == v) members
is_told (member_removed c a r members) v = r == v || any (λ member. member.user_id == v) members
is_told (ownership_transferred c p n members) v = any (λ member. member.user_id == v) members
is_told (group_deleted c members) v = false

-- The user of the connection's object is told.
abbrev pub told_through : GroupEvent → Option Connection → Bool
told_through e none = false
told_through e (some c) = elim c.user_id [ none ↦ false | some u ↦ is_told e u ]

-- The socket of the connection's object is open.
abbrev pub has_open_socket : (ℕ → Bool) → Option Connection → Bool
has_open_socket is_open none = false
has_open_socket is_open (some c) = is_open c.socket

-- The message goes to the connection.
abbrev pub addressed : Uuid → Uuid × ServerMessage → Bool
addressed a sent = sent.0 == a

-- Whether a message to one connection reaches another.
pub any-send_message :
    (is_open : ℕ → Bool) (m : Manager) (a : Uuid) (c : Connection) (message : ServerMessage)
    → any (addressed a) (send_message is_open m c message) ≡ (c.id == a && is_open c.socket)
unfolding send_message
any-send_message is_open m a c message = ground arith

module _ (is_open : ℕ → Bool) (m : Manager) (h : IsConsistent m) where
  any-send_to_all :
      (a : Uuid) (cs : List Connection) (message : ServerMessage)
      → any (addressed a) (send_to_all is_open m cs message)
        ≡ any (λ c. c.id == a && is_open c.socket) cs
  unfolding send_to_all send_message
  any-send_to_all a [] message = refl
  any-send_to_all a (c ∷ cs) message = ground (
    arith,
    any-append (addressed a) (send_message is_open m c message) (send_to_all is_open m cs message),
    any-send_to_all a cs message,
  )

  any-resolve :
      (a : Uuid) (xs : List Uuid)
      → any (λ c. c.id == a && is_open c.socket) (resolve xs m) ≡ (
          includes xs a && includes m.connections a && has_open_socket is_open (lookup a m.objects))
  unfolding resolve
  any-resolve a [] = refl
  any-resolve a (x ∷ xs) = ground (arith, any-resolve a xs, h.named x, h.present x)

  -- Whether the connection is open, registered and attached to one of the users of the keys.
  abbrev pub reaches : Uuid → Uuid → Bool
  reaches a u =
      attached_to (lookup a m.objects) u
      && includes m.connections a
      && has_open_socket is_open (lookup a m.objects)

  pub any-broadcast :
      (a : Uuid) (users : List Uuid) (message : ServerMessage)
      → any (addressed a) (broadcast is_open m (map user_key users) message) ≡ any (reaches a) users
  unfolding broadcast connections_at get_user_connections
  any-broadcast a [] message = refl
  any-broadcast a (u ∷ users) message = ground (
    arith,
    any-append (addressed a)
        (send_to_all is_open m (resolve (ids_of (lookup u m.user_connections)) m) message)
        (broadcast is_open m (map user_key users) message),
    any-send_to_all a (resolve (ids_of (lookup u m.user_connections)) m) message,
    any-resolve a (ids_of (lookup u m.user_connections)),
    h.agrees u a,
    any-broadcast a users message,
  )

  -- The reached users of a list of members.
  pub any-reaches :
      (a : Uuid) (members : List ConversationMember) (object : Option Connection)
      → lookup a m.objects ≡ object
      → any (reaches a) (user_ids members) ≡ (
          told_through (member_left 0 0 members) object
          && includes m.connections a
          && has_open_socket is_open object)
  any-reaches a [] none e = refl
  any-reaches a [] (some c) e = ground arith
  any-reaches a (x ∷ members) none e = ground (arith, any-reaches a members none e)
  any-reaches a (x ∷ members) (some c) e = ground (arith, any-reaches a members (some c) e)
