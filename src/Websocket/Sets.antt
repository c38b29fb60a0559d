-- ===== src/Websocket/Sets.antt =====
-- Sets of ids, as src/websocket/managers keeps them under the ids of the users.
use messinger_backend.Prelude.{
  ◌++◌, ◌≡◌, ◌≢◌, refl, Bool, true, false, not, ◌&&◌, ◌||◌, Option, none, some, List, [], ◌∷◌,
  arith, includes, ◌==◌, if◌then◌else◌,
}
use messinger_backend.Prelude.Rows.{any-append, includes-eq}
use messinger_backend.Prelude.Assoc.{Assoc, lookup, lookup-insert, lookup-erase}
use messinger_backend.Types.{Uuid}
use messinger_backend.Websocket.Connections.{set_add, set_delete, ids_of, put_set}

pub includes-set_add :
    (id a : Uuid) (ids : List Uuid) → includes (set_add id ids) a ≡ (a == id || includes ids a)
includes-set_add id a ids =
    ground (arith, any-append (λ x. x == a) ids (id ∷ []), includes-eq id a ids)

pub set_add-ne-nil : (id : Uuid) (ids : List Uuid) → set_add id ids ≢ []
set_add-ne-nil id [] = ground arith
set_add-ne-nil id (x ∷ ids) = ground arith

pub includes-set_delete :
    (id a : Uuid) (ids : List Uuid)
    → includes (set_delete id ids) a ≡ (not (a == id) && includes ids a)
includes-set_delete id a [] = ground arith
includes-set_delete id a (x ∷ ids) = ground (arith, includes-set_delete id a ids)

-- What `put_set` leaves under the key: an empty set is dropped.
abbrev pub as_set : List Uuid → Option (List Uuid)
as_set [] = none
as_set (id ∷ ids) = some (id ∷ ids)

pub ids_of-as_set : (ids : List Uuid) → ids_of (as_set ids) ≡ ids
ids_of-as_set [] = refl
ids_of-as_set (id ∷ ids) = refl

pub as_set-ne-some_nil : (ids : List Uuid) → as_set ids ≢ some []
as_set-ne-some_nil [] = ground arith
as_set-ne-some_nil (id ∷ ids) = ground arith

pub lookup-put_set :
    (u v : Uuid) (ids : List Uuid) (sets : Assoc (List Uuid))
    → lookup v (put_set u ids sets) ≡ (if u == v then as_set ids else lookup v sets)
lookup-put_set u v [] sets = lookup-erase u v sets
lookup-put_set u v (id ∷ ids) sets = lookup-insert u v (id ∷ ids) sets

abbrev pub is_distinct : List Uuid → Bool
is_distinct [] = true
is_distinct (id ∷ ids) = not (includes ids id) && is_distinct ids

pub set_delete-is_distinct :
    (id : Uuid) (ids : List Uuid) → is_distinct ids ≡ true → is_distinct (set_delete id ids) ≡ true
set_delete-is_distinct id [] h = refl
set_delete-is_distinct id (x ∷ ids) h =
    ground (arith, includes-set_delete id x ids, set_delete-is_distinct id ids)

pub append-is_distinct :
    (id : Uuid) (ids : List Uuid)
    → includes ids id ≡ false
    → is_distinct ids ≡ true
    → is_distinct (ids ++ id ∷ []) ≡ true
append-is_distinct id [] new h = refl
append-is_distinct id (x ∷ ids) new h =
    ground (arith, any-append (λ y. y == x) ids (id ∷ []), append-is_distinct id ids)

pub set_add-is_distinct :
    (id : Uuid) (ids : List Uuid) → is_distinct ids ≡ true → is_distinct (set_add id ids) ≡ true
set_add-is_distinct id ids h = ground (arith, append-is_distinct id ids)
