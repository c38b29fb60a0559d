-- ===== src/Auth/Middleware.antt =====
-- src/middlewares/auth.ts. Setting and clearing the cookies, the headers of the answer and
-- `res.locals` are fields of `Response`; the log is left out.
use messinger_backend.Prelude.{
  ℕ, Bool, true, false, Option, none, some, List, String, ◌==◌, ltb, option_eq, ◌||◌, if◌then◌else◌,
}
use messinger_backend.Types.{
  Uuid, Date, UserRole, SessionRevokeReason, suspicious, expired, invalid,
}
use messinger_backend.Exceptions.{Exception, unauthorized}
use messinger_backend.Entities.{Session}
use messinger_backend.Orm.{Orm}
use messinger_backend.Tokens.{
  Tokens, Claims, Verdict, verified, token_expired, token_invalid, jwt_secret, jwt_refresh_secret,
}
use messinger_backend.Store.{Action, pure, gets, ◌>>=◌, ◌>>◌}
use messinger_backend.Repositories.{
  TokenPair, hash_token, revoke_session, revoke_open_sessions, find_session, rotate_session,
}

-- What `getAccessToken` and `getRefreshToken` read, an empty text being none, and whether the
-- authorization header has the bearer scheme.
pub record Request : Type 0 where
  pub access_token : Option ℕ
  pub refresh_token : Option ℕ
  pub is_bearer_client : Bool

pub data Cookies : Type 0 where
  kept cleared : Cookies
  set : TokenPair → Cookies

pub record Response : Type 0 where
  -- The argument of `next`.
  pub next : Option Exception
  pub cookies : Cookies
  -- `x-access-token` and `x-refresh-token`.
  pub headers : Option TokenPair
  -- `res.locals`: the user and the roles.
  pub locals : Option (Uuid × List UserRole)

abbrev pub passes : Uuid → List UserRole → Response
passes user_id roles = record {
  next = none;
  cookies = kept;
  headers = none;
  locals = some (user_id, roles);
}

abbrev pub refuses : Cookies → String → Response
refuses cookies what = record {
  next = some (unauthorized what);
  cookies = cookies;
  headers = none;
  locals = none;
}

abbrev pub hands_out : Bool → TokenPair → Response → Response
hands_out true pair r = record r { headers = some pair }
hands_out false pair r = record r { cookies = set pair }

module _ ⦃o : Orm⦄ ⦃t : Tokens⦄ where
  unfoldable pub revoke_all_sessions : Uuid → Action (Unit {0})
  unfolding revoke_open_sessions
  revoke_all_sessions user_id = revoke_open_sessions user_id suspicious

  -- Step 7.
  unfoldable pub rotate : Bool → ℕ → Session → Claims → Action Response
  unfolding rotate_session
  rotate is_bearer_client token r c = do
    result ← rotate_session r.id c.roles token
    elim result [
      | none ↦ pure (refuses kept "UNABLE_TO_ROTATE_SESSION")
      | some pair ↦ pure (hands_out is_bearer_client pair (passes c.sub c.roles))
    ]

  -- Step 8.
  unfoldable pub revoke_invalid : SessionRevokeReason → Session → Action Response
  unfolding revoke_session
  revoke_invalid reason r = do revoke_session r.id reason; pure (refuses cleared "INVALID_SESSION")

  -- Steps 4 to 8, with the session and the verdict on the refresh token.
  unfoldable pub renew : Bool → ℕ → Date → Session → Verdict → Action Response
  unfolding revoke_session revoke_all_sessions rotate revoke_invalid
  renew is_bearer_client token now r (verified c) =
      if r.is_revoked
      then (do revoke_all_sessions c.sub; pure (refuses cleared "SUSPICIOUS_ACTIVITY_DETECTED"))
      else if ltb r.expires_at now
      then (do revoke_session r.id expired; pure (refuses cleared "EXPIRED_SESSION"))
      else rotate is_bearer_client token r c
  renew is_bearer_client token now r token_expired = revoke_invalid expired r
  renew is_bearer_client token now r token_invalid = revoke_invalid invalid r

  -- `[{ refreshTokenHash }, { previousRefreshTokenHash: refreshTokenHash }]`
  abbrev pub bears_hash : ℕ → Session → Bool
  bears_hash hash r =
      r.refresh_token_hash == hash || option_eq r.previous_refresh_token_hash (some hash)

  -- Steps 2 and 3.
  unfoldable pub refresh : Request → Action Response
  unfolding find_session renew
  refresh req = elim req.refresh_token [
    | none ↦ pure (refuses kept "INVALID_AUTHENTICATION")
    | some token ↦ do
      now ← gets (λ s. s.clock)
      found ← find_session (bears_hash (hash_token token))
      elim found [
        | none ↦ pure (refuses cleared "INVALID_SESSION")
        | some r ↦ renew req.is_bearer_client token now r (t.verify jwt_refresh_secret token now)
      ]
  ]

  unfoldable pub check_access : Request → Verdict → Action Response
  unfolding refresh
  check_access req (verified c) = pure (passes c.sub c.roles)
  check_access req token_expired = refresh req
  check_access req token_invalid = pure (refuses cleared "INVALID_ACCESS_TOKEN")

  unfoldable pub authenticate : Request → Action Response
  unfolding refresh check_access
  authenticate req = elim req.access_token [
    | none ↦ refresh req
    | some token ↦ do now ← gets (λ s. s.clock); check_access req (t.verify jwt_secret token now)
  ]
