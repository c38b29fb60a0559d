-- ===== src/Repositories/Sessions.antt =====
-- src/repositories/session.repository.ts. `parseExpiry` is part of the parameter
-- `add_refresh_expiry`. A transaction holds the lock on the row that it reads, and runs alone.
use messinger_backend.Prelude.{
  ℕ, Bool, true, ◌&&◌, Option, none, some, List, [], ◌∷◌, String, ◌==◌, leb, option_eq, not, false,
  if◌then◌else◌,
}
use messinger_backend.Types.{Uuid, Date, UserRole, SessionRevokeReason}
use messinger_backend.Entities.{Session}
use messinger_backend.Orm.{Orm}
use messinger_backend.Tokens.{Tokens, Claims, jwt_secret, jwt_refresh_secret}
use messinger_backend.Store.{
  Action, pure, gets, modify, generate, transaction, ◌>>=◌, ◌>>◌, or_fail,
}
use messinger_backend.Store.Constraints.{admits_session}

-- `{ accessToken, refreshToken }`
pub record TokenPair : Type 0 where
  pub access_token : ℕ
  pub refresh_token : ℕ

pub record CreateSessionParams : Type 0 where
  pub user_id : Uuid
  pub roles : List UserRole
  pub user_agent : String
  pub ip_address : Option String

abbrev pub refresh_rotation_grace_period : ℕ
refresh_rotation_grace_period = 5000

-- The row with the given primary key.
abbrev pub session_of : Uuid → Session → Bool
session_of id t = t.id == id

-- `{ isRevoked: true, revokedReason }`
abbrev pub revoked : SessionRevokeReason → Session → Session
revoked reason t = record t { is_revoked = true; revoked_reason = some reason }

module _ ⦃t : Tokens⦄ where
  abbrev pub hash_token : ℕ → ℕ
  hash_token token = t.sha256 token

  -- The pair that is signed for a session.
  abbrev pub sign_pair : Claims → Date → TokenPair
  sign_pair claims now = record {
    access_token = t.sign jwt_secret claims now;
    refresh_token = t.sign jwt_refresh_secret claims now;
  }

  -- A concurrent request has rotated this token a moment ago.
  abbrev pub within_grace : ℕ → Date → Session → Bool
  within_grace token now r = elim r.rotated_at [
    | none ↦ false
    | some rotated_at ↦
        option_eq r.previous_refresh_token_hash (some (hash_token token))
        && leb (t.difference_in_milliseconds now rotated_at) refresh_rotation_grace_period
  ]

  -- The patch of a rotation.
  abbrev pub rotated : Date → ℕ → TokenPair → Session → Session
  rotated now hash pair r = record r {
    previous_refresh_token_hash = some hash;
    rotated_refresh_token = some pair.refresh_token;
    rotated_access_token = some pair.access_token;
    refresh_token_hash = hash_token pair.refresh_token;
    rotated_at = some now;
  }

module _ ⦃o : Orm⦄ where
  abbrev pub update_sessions : (Session → Bool) → (Session → Session) → Action (Unit {0})
  update_sessions p patch = modify (λ s. record s { sessions = o.update _ p patch s.sessions })

  unfoldable pub revoke_session : Uuid → SessionRevokeReason → Action (Unit {0})
  revoke_session session_id reason = update_sessions (session_of session_id) (revoked reason)

  -- `SessionRepository.update({ userId, isRevoked: false }, …)`, called by the middleware.
  unfoldable pub revoke_open_sessions : Uuid → SessionRevokeReason → Action (Unit {0})
  revoke_open_sessions user_id reason =
      update_sessions (λ r. r.user_id == user_id && not r.is_revoked) (revoked reason)

  unfoldable pub find_session : (Session → Bool) → Action (Option Session)
  find_session p = gets (λ s. o.find_one _ p s.sessions)

module _ ⦃o : Orm⦄ ⦃t : Tokens⦄ where
  abbrev pub new_session : CreateSessionParams → Uuid → Date → TokenPair → Session
  new_session p session_id now pair = record {
    id = session_id;
    user_id = p.user_id;
    refresh_token_hash = hash_token pair.refresh_token;
    ip_address = p.ip_address;
    user_agent = some p.user_agent;
    is_revoked = false;
    revoked_reason = none;
    expires_at = t.add_refresh_expiry now;
    previous_refresh_token_hash = none;
    rotated_at = none;
    rotated_access_token = none;
    rotated_refresh_token = none;
    created_at = now;
  }

  unfoldable pub create_session : CreateSessionParams → Action TokenPair
  create_session p = do
    session_id ← generate
    now ← gets (λ s. s.clock)
    let pair = sign_pair (record { sub = p.user_id; roles = p.roles; sid = session_id }) now
    inserted ← gets (λ s.
        o.insert _ (admits_session s.users) (new_session p session_id now pair ∷ []) s.sessions)
    table ← or_fail inserted
    modify (λ s. record s { sessions = table })
    pure pair

  -- `{ accessToken: session.rotatedAccessToken!, refreshToken: session.rotatedRefreshToken! }`
  abbrev pub rotated_pair : Session → Option TokenPair
  rotated_pair r = elim r.rotated_access_token [
    | none ↦ none
    | some access ↦ elim r.rotated_refresh_token [
      | none ↦ none
      | some refresh ↦ some (record { access_token = access; refresh_token = refresh })
    ]
  ]

  -- What follows when the row was found.
  abbrev pub rotate_row : List UserRole → ℕ → Session → Action (Option TokenPair)
  rotate_row roles token r = do
    now ← gets (λ s. s.clock)
    let pair = sign_pair (record { sub = r.user_id; roles = roles; sid = r.id }) now
    (if within_grace token now r
        then pure (rotated_pair r)
        else if not (r.refresh_token_hash == hash_token token)
        then pure none
        else (do
          update_sessions (session_of r.id) (rotated now r.refresh_token_hash pair)
          pure (some pair)))

  unfoldable pub rotate_session : Uuid → List UserRole → ℕ → Action (Option TokenPair)
  unfolding find_session
  rotate_session session_id roles token = transaction (do
    found ← find_session (session_of session_id)
    elim found [ none ↦ pure none | some r ↦ rotate_row roles token r ])
