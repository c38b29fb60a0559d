-- ===== src/Websocket/Connections/Presence.antt =====
-- Which connections a user has, along any life of the server, and when the last one is gone. The
-- close handler is that of src/websocket/websocket-server.ts.
use messinger_backend.Prelude.{
  ℕ, suc, ◌≡◌, refl, true, false, not, ◌&&◌, ◌||◌, none, some, List, [], ◌∷◌, arith, map, length,
  includes, ◌==◌, option_eq, is_some, if◌then◌else◌, Option-cases, inl, inr,
}
use messinger_backend.Prelude.Assoc.{lookup, lookup-insert}
use messinger_backend.Types.{Uuid, Date}
use messinger_backend.Websocket.Connections.{
  Connection, Manager, create_connection_manager, set_delete, ids_of, register, get_connection,
  unregister, attach_user, set_session, resolve, get_user_connections, close,
}
use messinger_backend.Websocket.Connections.Invariant.{
  IsConsistent, attached_to, listed, create_connection_manager-IsConsistent, register-IsConsistent,
  attach_user-IsConsistent, set_session-IsConsistent, unregister-IsConsistent,
}
use messinger_backend.Websocket.Sets.{is_distinct, lookup-put_set, ids_of-as_set}
use messinger_backend.Prelude.Rows.{includes-eq}

-- The moves of the server: a generated id is not in use, and a connection is authenticated, as
-- `authenticate` does it, only while it is registered, and for no second user. The program lets a
-- client send a token of another user on the same connection; such lives are not covered.
pub data Step (m : Manager) : Manager → Type 0 where
  registers :
      (id : Uuid) (now : Date) (socket : ℕ)
      → includes m.connections id ≡ false
      → Step m (register id now socket m)
  authenticates :
      (id u session_id : Uuid) (c : Connection)
      → get_connection id m ≡ some c
      → (not (is_some c.user_id) || option_eq c.user_id (some u)) ≡ true
      → Step m (attach_user id u (set_session id session_id m))
  unregisters : (id : Uuid) → Step m (unregister id m)

pub data Reach (m : Manager) : Manager → Type 0 where
  here : Reach m m
  next : {n p : Manager} → Reach m n → Step n p → Reach m p

registered :
    (id session_id : Uuid) (c : Connection) (m : Manager)
    → get_connection id m ≡ some c
    → get_connection id (set_session id session_id m)
      ≡ some (record c { session_id = some session_id })
unfolding get_connection
registered id session_id c m e =
    ground (arith, lookup-insert id id (record c { session_id = some session_id }) m.objects)

Step-IsConsistent : {m n : Manager} → Step m n → IsConsistent m → IsConsistent n
Step-IsConsistent {m} (registers id now socket fresh) h =
    register-IsConsistent m h id now socket fresh
Step-IsConsistent {m} (authenticates id u session_id c e own) h =
    attach_user-IsConsistent (set_session id session_id m)
      (set_session-IsConsistent m h id session_id c e) id u
      (record c { session_id = some session_id }) (registered id session_id c m e) own
Step-IsConsistent {m} (unregisters id) h = unregister-IsConsistent m h id

pub Reach-IsConsistent : {m n : Manager} → IsConsistent m → Reach m n → IsConsistent n
Reach-IsConsistent h here = h
Reach-IsConsistent h (next r s) = Step-IsConsistent s (Reach-IsConsistent h r)

abbrev pub ids : List Connection → List Uuid
ids = map (λ c. c.id)

module _ (m : Manager) (h : IsConsistent m) where
  -- A list of ids resolves to the registered ones among them.
  includes-resolve :
      (a : Uuid) (xs : List Uuid)
      → includes (ids (resolve xs m)) a ≡ (includes xs a && includes m.connections a)
  unfolding resolve
  includes-resolve a [] = refl
  includes-resolve a (x ∷ xs) = ground (arith, includes-resolve a xs, h.named x, h.present x)

  pub get_user_connections_iff :
      (u a : Uuid)
      → includes (ids (get_user_connections u m)) a
        ≡ (includes m.connections a && attached_to (lookup a m.objects) u)
  unfolding get_user_connections
  get_user_connections_iff u a =
      ground (arith, includes-resolve a (ids_of (lookup u m.user_connections)), h.agrees u a)

-- In every state reached by the moves of `Step`, in which connections are registered, authenticated
-- for one user each and unregistered, the connections resolved for a user are exactly the
-- registered ones that are attached to the user.
pub reached_connections_iff :
    (m : Manager) (u a : Uuid)
    → Reach create_connection_manager m
    → includes (ids (get_user_connections u m)) a
      ≡ (includes m.connections a && attached_to (lookup a m.objects) u)
reached_connections_iff m u a r =
    get_user_connections_iff m (Reach-IsConsistent create_connection_manager-IsConsistent r) u a

length-set_delete-absent :
    (id : Uuid) (xs : List Uuid) → includes xs id ≡ false → set_delete id xs ≡ xs
length-set_delete-absent id [] h = refl
length-set_delete-absent id (x ∷ xs) h = ground (arith, length-set_delete-absent id xs)

length-set_delete :
    (id : Uuid) (xs : List Uuid)
    → includes xs id ≡ true
    → is_distinct xs ≡ true
    → length xs ≡ suc (length (set_delete id xs))
length-set_delete id [] h d = absurd (ground arith)
length-set_delete id (x ∷ xs) h d =
    ground (arith, length-set_delete id xs, length-set_delete-absent id xs, includes-eq x id xs)

length-resolve :
    (m : Manager) (h : IsConsistent m) (xs : List Uuid)
    → ((a : Uuid) → (not (includes xs a) || includes m.connections a) ≡ true)
    → length (resolve xs m) ≡ length xs
unfolding resolve
length-resolve m h [] all = refl
length-resolve m h (x ∷ xs) all =
    ground (arith, length-resolve m h xs (λ a. ground (arith, all a)), all x, h.present x)

length-get_user_connections :
    (m : Manager) (h : IsConsistent m) (u : Uuid)
    → length (get_user_connections u m) ≡ length (ids_of (lookup u m.user_connections))
unfolding get_user_connections
length-get_user_connections m h u =
    length-resolve m h (ids_of (lookup u m.user_connections)) (λ a. ground (arith, h.agrees u a))

module _ (m : Manager) (h : IsConsistent m) where
  -- What `unregister` leaves in the set of the connection's user.
  ids-unregister :
      (id u : Uuid)
      → listed u id m ≡ true
      → ids_of (lookup u (unregister id m).user_connections)
        ≡ set_delete id (ids_of (lookup u m.user_connections))
  unfolding unregister
  ids-unregister id u e = elim (Option-cases (lookup id m.objects)) [
    | inl no_object ↦ absurd (ground (arith, h.agrees u id))
    | inr (c, object) ↦ elim (Option-cases (lookup u m.user_connections)) [
      | inl no_set ↦ absurd (ground arith)
      | inr (xs, set) ↦ ground (
        arith,
        h.agrees u id,
        h.named id,
        lookup-put_set u u (set_delete id xs) m.user_connections,
        ids_of-as_set (set_delete id xs),
      )
    ]
  ]

  length-unregister :
      (id u : Uuid)
      → listed u id m ≡ true
      → length (get_user_connections u m) ≡ suc (length (get_user_connections u (unregister id m)))
  length-unregister id u e = ground (
    arith,
    length-get_user_connections m h u,
    length-get_user_connections (unregister id m) (unregister-IsConsistent m h id) u,
    ids-unregister id u e,
    length-set_delete id (ids_of (lookup u m.user_connections)) e (h.distinct_ids u),
  )

-- In every state reached by the moves of `Step`, in which connections are registered, authenticated
-- for one user each and unregistered, when the socket of a registered connection that is attached
-- to a user closes, the user is announced as offline exactly when no connection of the user is left
-- afterwards.
pub close_announces_last :
    (m : Manager) (id u : Uuid)
    → Reach create_connection_manager m
    → includes m.connections id ≡ true
    → attached_to (lookup id m.objects) u ≡ true
    → (close id m).0
      ≡ (if length (get_user_connections u (close id m).1) == 0 then some u else none)
unfolding close
close_announces_last m id u r e a = elim (Option-cases (lookup id m.objects)) [
  | inl no_object ↦ absurd (ground arith)
  | inr (c, object) ↦ ground (arith, h.agrees u id, length-unregister m h id u)
]
  where
    h : IsConsistent m
    h = Reach-IsConsistent create_connection_manager-IsConsistent r
