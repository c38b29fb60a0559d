-- ===== src/Auth/Service.antt =====
-- src/services/auth.service.ts: sign-in, sign-out, and the session of a WebSocket.
use messinger_backend.Prelude.{
  ℕ, Bool, not, ◌&&◌, Option, none, some, [], ◌∷◌, String, ◌==◌, ltb, option_eq, if◌then◌else◌,
}
use messinger_backend.Types.{Uuid, logout}
use messinger_backend.Exceptions.{type_error, not_found, unauthorized}
use messinger_backend.Entities.{User}
use messinger_backend.Orm.{Orm}
use messinger_backend.Tokens.{Tokens, Verdict, verified, token_expired, token_invalid, jwt_secret}
use messinger_backend.Store.{Action, pure, throw, gets, throw_if, or_throw, ◌>>=◌, ◌>>◌}
use messinger_backend.Repositories.{
  is_live, TokenPair, hash_token, create_session, revoke_session, find_session, session_of,
}

module _ ⦃o : Orm⦄ where
  -- `UserRepository.findByLoginKeyLookup`
  unfoldable pub find_by_login_key_lookup : ℕ → Action (Option User)
  find_by_login_key_lookup key =
      gets (λ s. o.find_one _ (λ u. option_eq u.login_key_lookup (some key) && is_live u) s.users)

module _ ⦃o : Orm⦄ ⦃t : Tokens⦄ where
  -- The key is accepted against the stored hash.
  abbrev pub compare_key : String → Option ℕ → Bool
  compare_key key none = Bool.false
  compare_key key (some hash) = t.bcrypt_compare key hash

  -- `compareLoginKeyOrPassword`: `bcrypt.compare` throws without a hash.
  abbrev pub compare_login_key_or_password : String → Option ℕ → Action Bool
  compare_login_key_or_password key none = throw type_error
  compare_login_key_or_password key (some hash) = pure (t.bcrypt_compare key hash)

  unfoldable pub signin : String → String → Option String → Action (User × TokenPair)
  unfolding find_by_login_key_lookup create_session
  signin login_key user_agent ip_address = do
    found ← find_by_login_key_lookup (t.login_key_lookup login_key)
    user ← or_throw found (not_found "USER_NOT_FOUND")
    is_valid ← compare_login_key_or_password login_key user.login_key_hash
    throw_if (not is_valid) (unauthorized "INVALID_LOGIN_KEY")
    pair ← create_session (record {
      user_id = user.id;
      roles = user.role ∷ [];
      user_agent = user_agent;
      ip_address = ip_address;
    })
    pure (user, pair)

  unfoldable pub sign_out : ℕ → Action (Unit {0})
  unfolding find_session revoke_session
  sign_out refresh_token = do
    found ← find_session (λ r. r.refresh_token_hash == hash_token refresh_token)
    elim found [
      | none ↦ pure tt
      | some r ↦ if r.is_revoked then pure tt else revoke_session r.id logout
    ]

  abbrev pub claims_sid : Verdict → Action Uuid
  claims_sid (verified c) = pure c.sid
  claims_sid token_expired = throw (unauthorized "WS_AUTH:INVALID_ACCESS_TOKEN")
  claims_sid token_invalid = throw (unauthorized "WS_AUTH:INVALID_ACCESS_TOKEN")

  -- The user and the session.
  unfoldable pub get_ws_session : ℕ → Action (Uuid × Uuid)
  unfolding find_session
  get_ws_session access_token = do
    now ← gets (λ s. s.clock)
    session_id ← claims_sid (t.verify jwt_secret access_token now)
    found ← find_session (session_of session_id)
    r ← or_throw found (unauthorized "WS_AUTH:INVALID_SESSION")
    throw_if r.is_revoked (unauthorized "WS_AUTH:SESSION_REVOKED")
    throw_if (ltb r.expires_at now) (unauthorized "WS_AUTH:EXPIRED_SESSION")
    pure (r.user_id, session_id)
