-- ===== src/Auth/Ending.antt =====
-- How a session begins and ends: `signin`, `logout` and `getWsSession` of
-- src/services/auth.service.ts.
use messinger_backend.Prelude.{
  ℕ, ◌≡◌, refl, subst, true, false, not, ◌&&◌, ◌||◌, Option, some, List, [], ◌∷◌, String, arith,
  any, map_where, ◌==◌, Option-cases, inl, inr,
}
use messinger_backend.Prelude.Rows.{all, all_of_Any, any-append}
use messinger_backend.Types.{Uuid, SessionRevokeReason, logout}
use messinger_backend.Exceptions.{IsOk, ok}
use messinger_backend.Entities.{Session, User}
use messinger_backend.Orm.{Orm, IsOrm, Found, orm-eq-table_orm}
use messinger_backend.Tokens.{Tokens, Claims, verified, jwt_secret}
use messinger_backend.Store.{Store}
use messinger_backend.Repositories.{
  TokenPair, hash_token, session_of, revoked, new_session, CreateSessionParams,
}
use messinger_backend.Auth.Service.{signin, sign_out, get_ws_session, compare_key}
use messinger_backend.Auth.Rotation.{at}

all-revoked :
    (id : Uuid) (reason : SessionRevokeReason) (rows : List Session)
    → all
        (λ r. not (session_of id r) || r.is_revoked)
        (map_where (session_of id) (revoked reason) rows)
      ≡ true
all-revoked id reason [] = refl
all-revoked id reason (r ∷ rows) = ground (arith, all-revoked id reason rows)

module _ ⦃o : Orm⦄ ⦃t : Tokens⦄ where
  -- After a sign-out with the current refresh token of an open session, an access token that is
  -- verified later and names the session does not open a WebSocket.
  pub sign_out_closes_websockets :
      (l : IsOrm o) (refresh_token access_token : ℕ) (r : Session) (c : Claims) (later : ℕ)
      (s : Store)
      → o.find_one _ (λ r. r.refresh_token_hash == hash_token refresh_token) s.sessions ≡ some r
      → r.is_revoked ≡ false
      → t.verify jwt_secret access_token later ≡ verified c
      → c.sid ≡ r.id
      → ¬ IsOk (get_ws_session access_token (at later (sign_out refresh_token s).1)).0
  sign_out_closes_websockets l = rw (orm-eq-table_orm l) (
      unfold get_ws_session sign_out in
      λ refresh_token access_token r c later s found live v e.
        elim (Option-cases (
          o.find_one _ (session_of c.sid)
            (map_where (session_of r.id) (revoked logout) s.sessions))) [
              | inl none_there ↦ ground arith
              | inr (r', there) ↦
                  let found' =
                    subst
                      (Found (session_of c.sid)
                        (map_where (session_of r.id) (revoked logout) s.sessions))
                      there (l.find_one-Found _ (session_of c.sid) _) in
                  ground (
                    arith,
                    found'.0,
                    all_of_Any (λ r. not (session_of c.sid r) || r.is_revoked)
                        (map_where (session_of r.id) (revoked logout) s.sessions) r' found'.1,
                    all-revoked r.id logout s.sessions,
                  )
            ])

  abbrev params : User → String → Option String → CreateSessionParams
  params user agent ip = record {
    user_id = user.id;
    roles = user.role ∷ [];
    user_agent = agent;
    ip_address = ip;
  }

  -- When signing in is fulfilled, there is an open session of the user that the sign-in found, with
  -- the digest of the refresh token that is handed out, and the key passed the check of the user's
  -- stored hash.
  pub signin_opens_session :
      (l : IsOrm o) (key agent : String) (ip : Option String) (s : Store) (user : User)
      (pair : TokenPair)
      → (signin key agent ip s).0 ≡ ok (user, pair)
      → (any
            (λ r.
              r.user_id == user.id
              && r.refresh_token_hash == hash_token pair.refresh_token
              && not r.is_revoked)
            (signin key agent ip s).1.sessions
          ≡ true)
        × (compare_key key user.login_key_hash ≡ true)
  signin_opens_session l = rw (orm-eq-table_orm l) (
      unfold signin in
      λ key agent ip s user pair e. (
        ground (
          arith,
          any-append
              (λ r.
                r.user_id == user.id
                && r.refresh_token_hash == hash_token pair.refresh_token
                && not r.is_revoked)
              s.sessions (new_session (params user agent ip) (o.uuid s.serial) s.clock pair ∷ []),
        ),
        ground arith,
      ))
