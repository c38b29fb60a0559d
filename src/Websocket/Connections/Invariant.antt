-- ===== src/Websocket/Connections/Invariant.antt =====
-- The sets of the users agree with the registered connections.
use messinger_backend.Prelude.{
  ℕ, ◌≡◌, ◌≢◌, refl, is_some, Bool, true, false, not, ◌&&◌, ◌||◌, Option, none, some, [], arith,
  includes, ◌==◌, option_eq, Bool-cases, Option-cases, inl, inr,
}
use messinger_backend.Prelude.Assoc.{lookup, lookup-insert}
use messinger_backend.Types.{Uuid, Date}
use messinger_backend.Websocket.Connections.{
  Connection, Manager, create_connection_manager, set_add, set_delete, ids_of, register,
  get_connection, unregister, attach_user, set_session,
}
use messinger_backend.Websocket.Sets.{
  includes-set_add, set_add-ne-nil, includes-set_delete, ids_of-as_set, as_set-ne-some_nil,
  lookup-put_set, is_distinct, set_delete-is_distinct, set_add-is_distinct,
}
use messinger_backend.Prelude.Rows.{includes-eq}

-- The object of the id exists and is attached to the user.
abbrev pub attached_to : Option Connection → Uuid → Bool
attached_to none u = false
attached_to (some c) u = option_eq c.user_id (some u)

-- The set of the user holds the id.
abbrev pub listed : Uuid → Uuid → Manager → Bool
listed u id m = includes (ids_of (lookup u m.user_connections)) id

-- The object, if there is one, bears the id.
abbrev pub bears : Uuid → Option Connection → Bool
bears id none = true
bears id (some c) = c.id == id

pub record IsConsistent (m : Manager) : Type 0 where
  -- The set of a user holds exactly the registered connections that are attached to the user.
  pub agrees :
      (u id : Uuid)
      → listed u id m ≡ (includes m.connections id && attached_to (lookup id m.objects) u)
  -- An object bears the id under which it is found.
  pub named : (id : Uuid) → bears id (lookup id m.objects) ≡ true
  -- Every registered connection has its object.
  pub present :
      (id : Uuid) → (not (includes m.connections id) || is_some (lookup id m.objects)) ≡ true
  -- A user with no connection has no set.
  pub pruned : (u : Uuid) → lookup u m.user_connections ≢ some []
  -- A set holds no id twice.
  pub distinct_ids : (u : Uuid) → is_distinct (ids_of (lookup u m.user_connections)) ≡ true

pub create_connection_manager-IsConsistent : IsConsistent create_connection_manager
create_connection_manager-IsConsistent = record {
  agrees = λ u id. refl;
  named = λ id. refl;
  present = λ id. refl;
  pruned = λ u e. cc;
  distinct_ids = λ u. refl;
}

module _ (m : Manager) (h : IsConsistent m) where
  -- Under an id that is not in use.
  pub register-IsConsistent :
      (id : Uuid) (now : Date) (socket : ℕ)
      → includes m.connections id ≡ false
      → IsConsistent (register id now socket m)
  unfolding register
  register-IsConsistent id now socket fresh = record {
    agrees = λ u a. ground (
      arith,
      h.agrees u a,
      includes-set_add id a m.connections,
      includes-eq id a m.connections,
      lookup-insert id a new m.objects,
    );
    named = λ a. ground (arith, h.named a, lookup-insert id a new m.objects);
    present = λ a.
        ground (
          arith,
          h.present a,
          includes-set_add id a m.connections,
          lookup-insert id a new m.objects,
        );
    pruned = h.pruned;
    distinct_ids = h.distinct_ids;
  }
    where
      new : Connection
      new = record {
        id = id;
        socket = socket;
        connected_at = now;
        user_id = none;
        session_id = none;
      }

  -- A registered connection of no user, or of the same one.
  pub attach_user-IsConsistent :
      (id u : Uuid) (c : Connection)
      → get_connection id m ≡ some c
      → (not (is_some c.user_id) || option_eq c.user_id (some u)) ≡ true
      → IsConsistent (attach_user id u m)
  unfolding attach_user get_connection
  attach_user-IsConsistent id u c e own = record {
    agrees = λ v a. ground (
      arith,
      h.agrees v a,
      h.agrees u a,
      h.agrees v id,
      includes-set_add id a (ids_of (lookup u m.user_connections)),
      includes-eq id a m.connections,
      lookup-insert id a with_user m.objects,
      lookup-insert u v (set_add id (ids_of (lookup u m.user_connections))) m.user_connections,
    );
    named = λ a. ground (arith, h.named a, h.named id, lookup-insert id a with_user m.objects);
    present = λ a. ground (arith, h.present a, lookup-insert id a with_user m.objects);
    pruned = λ v. ground (
      arith,
      h.pruned v,
      set_add-ne-nil id (ids_of (lookup u m.user_connections)),
      lookup-insert u v (set_add id (ids_of (lookup u m.user_connections))) m.user_connections,
    );
    distinct_ids = λ v. ground (
      arith,
      h.distinct_ids v,
      h.distinct_ids u,
      set_add-is_distinct id (ids_of (lookup u m.user_connections)),
      lookup-insert u v (set_add id (ids_of (lookup u m.user_connections))) m.user_connections,
    );
  }
    where
      with_user : Connection
      with_user = record c { user_id = some u }

  -- The session of a registered connection.
  pub set_session-IsConsistent :
      (id session_id : Uuid) (c : Connection)
      → get_connection id m ≡ some c
      → IsConsistent (set_session id session_id m)
  unfolding get_connection
  set_session-IsConsistent id session_id c e = record {
    agrees = λ v a. ground (
      arith,
      h.agrees v a,
      h.agrees v id,
      lookup-insert id a (record c { session_id = some session_id }) m.objects,
    );
    named = λ a. ground (
      arith,
      h.named a,
      h.named id,
      lookup-insert id a (record c { session_id = some session_id }) m.objects,
    );
    present = λ a. ground (
      arith,
      h.present a,
      lookup-insert id a (record c { session_id = some session_id }) m.objects,
    );
    pruned = λ v. ground (arith, h.pruned v);
    distinct_ids = λ v. ground (arith, h.distinct_ids v);
  }

  pub unregister-IsConsistent : (id : Uuid) → IsConsistent (unregister id m)
  unfolding unregister
  unregister-IsConsistent id = elim (Bool-cases (includes m.connections id)) [
    | inl known ↦ elim (Option-cases (lookup id m.objects)) [
      | inl e ↦ absurd (ground (arith, h.present id))
      | inr (c, e) ↦ go known c e c.user_id refl
    ]
    | inr unknown ↦ rw (unknown, unregister) h
  ]
    where
      go :
          (known : includes m.connections id ≡ true) (c : Connection)
          → lookup id m.objects ≡ some c
          → (user : Option Uuid) → c.user_id ≡ user
          → IsConsistent (unregister id m)
      go known c e none no_user = record {
        agrees = λ v a.
            ground
              (arith, h.agrees v a, h.named id, h.named a, includes-set_delete id a m.connections);
        named = λ a. ground (arith, h.named a);
        present = λ a. ground (arith, h.present a, includes-set_delete id a m.connections);
        pruned = λ v. ground (arith, h.pruned v);
        distinct_ids = λ v. ground (arith, h.distinct_ids v);
      }
      go known c e (some u) attached = elim (Option-cases (lookup u m.user_connections)) [
        | inl no_set ↦ absurd (ground (arith, h.agrees u id))
        | inr (ids, set) ↦ record {
          agrees = λ v a. ground (
            arith,
            h.agrees v a,
            h.agrees u a,
            h.named id,
            includes-set_delete id a m.connections,
            includes-set_delete id a ids,
            lookup-put_set u v (set_delete id ids) m.user_connections,
            ids_of-as_set (set_delete id ids),
          );
          named = λ a. ground (arith, h.named a);
          present =
              λ a. ground (arith, h.present a, h.named id, includes-set_delete id a m.connections);
          pruned = λ v. ground (
            arith,
            h.pruned v,
            h.named id,
            lookup-put_set u v (set_delete id ids) m.user_connections,
            as_set-ne-some_nil (set_delete id ids),
          );
          distinct_ids = λ v. ground (
            arith,
            h.distinct_ids v,
            h.distinct_ids u,
            h.named id,
            lookup-put_set u v (set_delete id ids) m.user_connections,
            ids_of-as_set (set_delete id ids),
            set_delete-is_distinct id ids,
          );
        }
      ]
