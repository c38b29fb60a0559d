-- ===== src/Websocket/Invitations.antt =====
-- src/websocket/managers/member-invitation-manager.ts: a `Map` from a user to the set of the group
-- conversations that the user is invited to. The operations that change the map return the new one.
use messinger_backend.Prelude.{
  ◌≡◌, ◌≢◌, Bool, false, not, ◌&&◌, ◌||◌, none, some, List, [], arith, includes, ◌==◌, Option-cases,
  inl, inr,
}
use messinger_backend.Prelude.Assoc.{Assoc, lookup, insert, erase, lookup-insert, lookup-erase}
use messinger_backend.Types.{Uuid}
use messinger_backend.Websocket.Connections.{set_add, set_delete, ids_of, put_set}
use messinger_backend.Websocket.Sets.{
  includes-set_add, includes-set_delete, lookup-put_set, ids_of-as_set, set_add-ne-nil,
  as_set-ne-some_nil,
}

abbrev pub Invitations : Type 0
Invitations = Assoc (List Uuid)

pub add : Uuid → Uuid → Invitations → Invitations
add user_id conversation_id m =
    insert user_id (set_add conversation_id (ids_of (lookup user_id m))) m

pub has : Uuid → Uuid → Invitations → Bool
has user_id conversation_id m = elim (lookup user_id m) [
  | none ↦ false
  | some ids ↦ includes ids conversation_id
]

pub remove : Uuid → Uuid → Invitations → Invitations
remove user_id conversation_id m = elim (lookup user_id m) [
  | none ↦ m
  | some ids ↦ put_set user_id (set_delete conversation_id ids) m
]

pub remove_all : Uuid → Invitations → Invitations
remove_all user_id m = erase user_id m

-- One call of the manager.
pub data Change : Type 0 where
  adds removes : (user_id conversation_id : Uuid) → Change
  removes_all : (user_id : Uuid) → Change

pub after : Change → Invitations → Invitations
unfolding add remove remove_all
after (adds u c) m = add u c m
after (removes u c) m = remove u c m
after (removes_all u) m = remove_all u m

-- The same, on the set of the pairs (user, conversation).
abbrev pub expected : Change → (Uuid → Uuid → Bool) → Uuid → Uuid → Bool
expected (adds u c) s v d = (v == u && d == c) || s v d
expected (removes u c) s v d = not (v == u && d == c) && s v d
expected (removes_all u) s v d = not (v == u) && s v d

-- After any change, the map holds the pairs that the change of the set of pairs leaves: `add` adds
-- one, `remove` takes one away, `removeAll` those of one user.
pub has-after :
    (k : Change) (m : Invitations) (v d : Uuid)
    → has v d (after k m) ≡ expected k (λ u c. has u c m) v d
unfolding has after
has-after (adds u c) m v d = ground (
  arith,
  lookup-insert u v (set_add c (ids_of (lookup u m))) m,
  includes-set_add c d (ids_of (lookup u m)),
)
has-after (removes u c) m v d = elim (Option-cases (lookup u m)) [
  | inl e ↦ ground arith
  | inr (xs, e) ↦ ground (
    arith,
    lookup-put_set u v (set_delete c xs) m,
    includes-set_delete c d xs,
    ids_of-as_set (set_delete c xs),
  )
]
has-after (removes_all u) m v d = ground (arith, lookup-erase u v m)

-- After any change of a map in which no user has an empty set, no user has one.
pub after-no_empty_set :
    (k : Change) (m : Invitations)
    → ((u : Uuid) → lookup u m ≢ some [])
    → (v : Uuid) → lookup v (after k m) ≢ some []
unfolding after
after-no_empty_set (adds u c) m h v = ground (
  arith,
  h v,
  lookup-insert u v (set_add c (ids_of (lookup u m))) m,
  set_add-ne-nil c (ids_of (lookup u m)),
)
after-no_empty_set (removes u c) m h v = elim (Option-cases (lookup u m)) [
  | inl e ↦ ground (arith, h v)
  | inr (xs, e) ↦
      ground
        (arith, h v, lookup-put_set u v (set_delete c xs) m, as_set-ne-some_nil (set_delete c xs))
]
after-no_empty_set (removes_all u) m h v = ground (arith, h v, lookup-erase u v m)
