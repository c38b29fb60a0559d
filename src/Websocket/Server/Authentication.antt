-- ===== src/Websocket/Server/Authentication.antt =====
-- What a token does to a connection.
use messinger_backend.Prelude.{
  ℕ, ◌≡◌, refl, ◌⊎◌, Bool, true, not, ◌&&◌, some, arith, any, ltb, ◌==◌, inl, inr, Option-cases,
  subst,
}
use messinger_backend.Prelude.Assoc.{lookup, insert, lookup-insert}
use messinger_backend.Prelude.Rows.{any_of_Any}
use messinger_backend.Types.{Uuid, Date}
use messinger_backend.Exceptions.{Exception, Result-cases, ok}
use messinger_backend.Entities.{Session}
use messinger_backend.Orm.{Orm, IsOrm, Found}
use messinger_backend.Tokens.{
  Tokens, Claims, Verdict, verified, token_expired, token_invalid, jwt_secret,
}
use messinger_backend.Cipher.{Cipher}
use messinger_backend.Store.{Store}
use messinger_backend.Repositories.{session_of, find_session}
use messinger_backend.Auth.Service.{get_ws_session}
use messinger_backend.Websocket.Connections.{Connection, Manager, attach_user, set_session}
use messinger_backend.Websocket.Listeners.{error, send_message}
use messinger_backend.Websocket.Server.{on_auth_token, authenticate_connection}

-- The object of the connection once the user and the session are set.
abbrev pub signed_in : Uuid → Uuid → Connection → Connection
signed_in user_id session_id c = record c { user_id = some user_id; session_id = some session_id }

signed_in_lem :
    (id user_id session_id : Uuid) (m : Manager) (c : Connection)
    → lookup id m.objects ≡ some c
    → lookup id (attach_user id user_id (set_session id session_id m)).objects
      ≡ some (signed_in user_id session_id c)
unfolding attach_user
signed_in_lem id user_id session_id m c e = ground (
  arith,
  lookup-insert id id (record c { session_id = some session_id }) m.objects,
  lookup-insert id id (signed_in user_id session_id c)
      (insert id (record c { session_id = some session_id }) m.objects),
)

-- An open session of the user with the given id.
abbrev pub is_open_session : Uuid → Uuid → Date → Session → Bool
is_open_session user_id session_id now r =
    r.id == session_id && r.user_id == user_id && not r.is_revoked && not (ltb r.expires_at now)

module _ ⦃t : Tokens⦄ where
  -- What an accepted token stands for: it verifies, and its session is open.
  abbrev pub IsOpenToken : ℕ → Uuid → Uuid → Store → Type 0
  IsOpenToken token user_id session_id s =
      (c : Claims) × (t.verify jwt_secret token s.clock ≡ verified c)
      × (c.sid ≡ session_id)
      × (any (is_open_session user_id session_id s.clock) s.sessions ≡ true)

module _ ⦃o : Orm⦄ ⦃t : Tokens⦄ where
  get_ws_session-same : (token : ℕ) (s : Store) → (get_ws_session token s).1 ≡ s
  unfolding get_ws_session find_session
  get_ws_session-same token s = ground arith

  get_ws_session-IsOpenToken :
      (l : IsOrm o) (token user_id session_id : ℕ) (s : Store) (v : Verdict)
      → t.verify jwt_secret token s.clock ≡ v
      → (get_ws_session token s).0 ≡ ok (user_id, session_id)
      → IsOpenToken token user_id session_id s
  unfolding get_ws_session find_session
  get_ws_session-IsOpenToken l token user_id session_id s token_expired e h = absurd (ground arith)
  get_ws_session-IsOpenToken l token user_id session_id s token_invalid e h = absurd (ground arith)
  get_ws_session-IsOpenToken l token user_id session_id s (verified c) e h =
      elim (Option-cases (o.find_one Session (session_of c.sid) s.sessions)) [
        | inl none_found ↦ absurd (ground arith)
        | inr (r, found) ↦
            let (has_id, inside) =
              subst (Found (session_of c.sid) s.sessions) found
                (l.find_one-Found Session (session_of c.sid) s.sessions) in
            (
              c,
              e,
              ground arith,
              ground (
                arith,
                any_of_Any (is_open_session user_id session_id s.clock) s.sessions r inside,
              ),
            )
      ]

module _ ⦃o : Orm⦄ ⦃t : Tokens⦄ ⦃e : Cipher⦄ where
  -- A token that a client sends is either refused, and then nothing changes and the client gets the
  -- error; or it verifies as an access token whose `sid` is the id of a stored session which is
  -- neither revoked nor expired, and then the connection bears the user and the id of this session,
  -- whatever becomes of the synchronisation.
  pub on_auth_token_lem :
      (l : IsOrm o) (is_open : ℕ → Bool) (c : Connection) (token : ℕ) (m : Manager) (s : Store)
      → lookup c.id m.objects ≡ some c
      → ((x : Exception) × (on_auth_token is_open c token m s
            ≡ (m, send_message is_open m c (error x), s)))
        ⊎ ((user_id session_id : Uuid) × IsOpenToken token user_id session_id s
            × (lookup c.id (on_auth_token is_open c token m s).0.objects
                ≡ some (signed_in user_id session_id c)))
  unfolding on_auth_token authenticate_connection
  on_auth_token_lem l is_open c token m s e = elim (Result-cases (get_ws_session token s).0) [
    | inr (x, refused) ↦ inl (x, ground (arith, get_ws_session-same token s))
    | inl ((u, sid), accepted) ↦ inr (
      u,
      sid,
      get_ws_session-IsOpenToken l token u sid s (t.verify jwt_secret token s.clock) refl accepted,
      ground (arith, signed_in_lem c.id u sid m c e),
    )
  ]
