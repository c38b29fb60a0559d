-- ===== src/Websocket/Handlers/Notified.antt =====
-- Whom a handler notifies.
use messinger_backend.Prelude.{
  ℕ, ◌≡◌, refl, Bool, false, not, ◌&&◌, Option, none, some, List, [], arith, any, ◌==◌, includes,
  inl, inr, Option-cases, Bool-cases, filter, is_some,
}
use messinger_backend.Prelude.Assoc.{lookup}
use messinger_backend.Types.{Uuid}
use messinger_backend.Exceptions.{ok}
use messinger_backend.Entities.{ConversationMember}
use messinger_backend.Orm.{Orm, IsOrm}
use messinger_backend.R2.{R2}
use messinger_backend.Cipher.{Cipher}
use messinger_backend.Store.{Store, member_left}
use messinger_backend.Store.Constraints.{same_member}
use messinger_backend.Repositories.{active_in, find_member, get_members}
use messinger_backend.Messages.Sending.{receivers}
use messinger_backend.Messages.Receivers.{any-receivers, any-active}
use messinger_backend.Websocket.Connections.{Connection, Manager, create_connection_manager}
use messinger_backend.Websocket.Connections.Invariant.{
  IsConsistent, create_connection_manager-IsConsistent,
}
use messinger_backend.Websocket.Connections.Presence.{Reach, Reach-IsConsistent}
use messinger_backend.Websocket.Listeners.{ServerMessage, user_ids}
use messinger_backend.Websocket.Listeners.Audience.{
  addressed, told_through, has_open_socket, any-broadcast, any-reaches,
}
use messinger_backend.Websocket.Handlers.{
  Sends, to_users, typing_start_handler, typing_message, authenticated_user,
}

-- The user of the connection is an active member of the conversation, other than the given one.
abbrev pub of_other_member : Uuid → Uuid → List ConversationMember → Option Connection → Bool
of_other_member u c rows none = false
of_other_member u c rows (some d) = elim d.user_id [
  | none ↦ false
  | some v ↦ not (v == u) && any (λ x. active_in c x && x.user_id == v) rows
]

told-receivers :
    (u c : Uuid) (rows : List ConversationMember) (object : Option Connection)
    → told_through (member_left 0 0 (receivers u (filter (active_in c) rows))) object
      ≡ of_other_member u c rows object
told-receivers u c rows none = refl
told-receivers u c rows (some d) = elim (Option-cases d.user_id) [
  | inl nobody ↦ ground arith
  | inr (v, somebody) ↦
      ground (arith, any-receivers u v (filter (active_in c) rows), any-active c v rows)
]

-- What is sent to the other active members of a conversation.
any-to_users :
    (is_open : ℕ → Bool) (m : Manager) (h : IsConsistent m) (u c : Uuid)
    (rows : List ConversationMember) (a : Uuid) (message : ServerMessage)
    → any
        (addressed a)
        (to_users is_open m (user_ids (receivers u (filter (active_in c) rows))) message)
      ≡ (of_other_member u c rows (lookup a m.objects)
          && includes m.connections a
          && has_open_socket is_open (lookup a m.objects))
any-to_users is_open m h u c rows a message = ground (
  arith,
  any-broadcast is_open m h a (user_ids (receivers u (filter (active_in c) rows))) message,
  any-reaches is_open m h a (receivers u (filter (active_in c) rows)) (lookup a m.objects) refl,
  told-receivers u c rows (lookup a m.objects),
)

module _ ⦃o : Orm⦄ where
  -- An active member of the conversation.
  abbrev pub is_typing_member : Uuid → Uuid → Store → Bool
  is_typing_member u c s = elim (o.find_one ConversationMember (same_member c u) s.members) [
    | none ↦ false
    | some x ↦ not (is_some x.soft_deleted_at)
  ]

  -- In every state of the connections reached by the moves of `Step`, in which connections are
  -- registered, authenticated for one user each and unregistered: that a user types or has stopped typing changes nothing in the database, and a connection is sent something exactly when
  -- the user is found to be an active member of the conversation, and the connection is registered,
  -- has an open socket and belongs to another active member.
  pub typing_start_handler_iff :
      (l : IsOrm o) (is_open : ℕ → Bool) (m : Manager) (d : Connection) (u c : Uuid)
      (is_typing : Bool) (s : Store) (a : Uuid)
      → Reach create_connection_manager m
      → authenticated_user d.user_id d.session_id ≡ some u
      → (sends : Sends) × (typing_start_handler is_open m d (some (c, is_typing)) s ≡ (ok sends, s))
        × (any (addressed a) sends ≡ (
            is_typing_member u c s
            && of_other_member u c s.members (lookup a m.objects)
            && includes m.connections a
            && has_open_socket is_open (lookup a m.objects)))
  unfolding typing_start_handler find_member get_members
  typing_start_handler_iff l is_open m d u c is_typing s a reached user =
      elim (Option-cases (o.find_one ConversationMember (same_member c u) s.members)) [
        | inl nobody ↦ ([], ground arith, ground arith)
        | inr (x, found) ↦ elim (Bool-cases (is_some x.soft_deleted_at)) [
          | inl gone ↦ ([], ground arith, ground arith)
          | inr here ↦ (
            to_users is_open m (user_ids (receivers u members)) (typing_message is_typing u),
            ground arith,
            ground (
              arith,
              l.find_lem ConversationMember (active_in c) s.members,
              any-to_users is_open m consistent u c s.members a (typing_message is_typing u),
            ),
          )
        ]
      ]
    where
      members : List ConversationMember
      members = o.find ConversationMember (active_in c) s.members

      consistent : IsConsistent m
      consistent = Reach-IsConsistent create_connection_manager-IsConsistent reached
