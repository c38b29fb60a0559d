-- ===== src/Websocket/Connections.antt =====
-- src/websocket/managers/connection-manager.ts. A `Connection` is a shared, mutable object: the map
-- `connections` and the event handlers of the socket hold the same one. `objects` is the heap of
-- them, by id; the map's keys are `connections`, and its value at a key is the object of that id.
pub mod Invariant
pub mod Presence
use messinger_backend.Prelude.{
  ℕ, Bool, false, not, Option, none, some, List, [], ◌∷◌, ◌++◌, if◌then◌else◌, ◌==◌, includes,
  filter, length,
}
use messinger_backend.Prelude.Assoc.{Assoc, lookup, insert, erase}
use messinger_backend.Types.{Uuid, Date}

pub record Connection : Type 0 where
  pub id : Uuid
  pub socket : ℕ
  pub connected_at : Date
  pub user_id : Option Uuid
  pub session_id : Option Uuid

pub record Manager : Type 0 where
  pub objects : Assoc Connection
  pub connections : List Uuid
  pub user_connections : Assoc (List Uuid)

-- `createConnectionManager()`
abbrev pub create_connection_manager : Manager
create_connection_manager = record { objects = []; connections = []; user_connections = [] }

-- `set.add(id)`
abbrev pub set_add : Uuid → List Uuid → List Uuid
set_add id ids = if includes ids id then ids else ids ++ id ∷ []

-- `set.delete(id)`
abbrev pub set_delete : Uuid → List Uuid → List Uuid
set_delete id = filter (λ x. not (x == id))

-- The ids that a user's set holds; none if there is no set.
abbrev pub ids_of : Option (List Uuid) → List Uuid
ids_of none = []
ids_of (some ids) = ids

-- `id` and `now` stand for `crypto.randomUUID()` and `new Date()`.
unfoldable pub register : Uuid → Date → ℕ → Manager → Manager
register id now socket m = record m {
  objects =
      insert id
        (record { id = id; socket = socket; connected_at = now; user_id = none; session_id = none })
        m.objects;
  connections = set_add id m.connections;
}

-- `connections.get(id)`
unfoldable pub get_connection : Uuid → Manager → Option Connection
get_connection id m = if includes m.connections id then lookup id m.objects else none

abbrev pub put_set : Uuid → List Uuid → Assoc (List Uuid) → Assoc (List Uuid)
put_set user_id [] sets = erase user_id sets
put_set user_id (id ∷ ids) sets = insert user_id (id ∷ ids) sets

pub remove_user_connection : Uuid → Uuid → Manager → Manager
remove_user_connection user_id connection_id m = elim (lookup user_id m.user_connections) [
  | none ↦ m
  | some ids ↦ record m {
    user_connections = put_set user_id (set_delete connection_id ids) m.user_connections;
  }
]

abbrev release : Option Uuid → Uuid → Manager → Manager
release none id m = m
release (some user_id) id m = remove_user_connection user_id id m

pub unregister : Uuid → Manager → Manager
unfolding get_connection remove_user_connection
unregister connection_id m = elim (get_connection connection_id m) [
  | none ↦ m
  | some connection ↦
      let released = release connection.user_id connection.id m in
      record released { connections = set_delete connection_id released.connections }
]

abbrev set_user : Uuid → Option Connection → Assoc Connection → Uuid → Assoc Connection
set_user id none objects user_id = objects
set_user id (some c) objects user_id = insert id (record c { user_id = some user_id }) objects

-- The connection is given by its id; it may have been unregistered meanwhile.
unfoldable pub attach_user : Uuid → Uuid → Manager → Manager
attach_user connection_id user_id m = record m {
  objects = set_user connection_id (lookup connection_id m.objects) m.objects user_id;
  user_connections =
      insert user_id (set_add connection_id (ids_of (lookup user_id m.user_connections)))
        m.user_connections;
}

-- `connection.sessionId = sessionId`, in `authenticate` of src/websocket/websocket-server.ts.
abbrev pub set_session : Uuid → Uuid → Manager → Manager
set_session id session_id m = elim (lookup id m.objects) [
  | none ↦ m
  | some c ↦ record m { objects = insert id (record c { session_id = some session_id }) m.objects }
]

-- `.map((id) => connections.get(id)).filter(Boolean)`
unfoldable pub resolve : List Uuid → Manager → List Connection
unfolding get_connection
resolve [] m = []
resolve (id ∷ ids) m =
    let rest = resolve ids m in elim (get_connection id m) [ none ↦ rest | some c ↦ c ∷ rest ]

unfoldable pub get_user_connections : Uuid → Manager → List Connection
unfolding resolve
get_user_connections user_id m = resolve (ids_of (lookup user_id m.user_connections)) m

pub count : Manager → ℕ
count m = length m.connections

pub get_all_connections : Manager → List Connection
unfolding resolve
get_all_connections m = resolve m.connections m

abbrev is_single : List Connection → Bool
is_single connections = length connections == 1

abbrev was_last : Option Connection → Manager → Option Uuid
was_last none m = none
was_last (some c) m = elim c.user_id [
  | none ↦ none
  | some user_id ↦ if is_single (get_user_connections user_id m) then some user_id else none
]

-- The handler of the socket's `close`, in src/websocket/websocket-server.ts: the user for whom it
-- calls `presenceOfflineHandler`, and the manager. The timer and the log are left out.
pub close : Uuid → Manager → Option Uuid × Manager
unfolding get_user_connections unregister
close id m = (was_last (lookup id m.objects) m, unregister id m)
