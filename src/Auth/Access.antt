-- ===== src/Auth/Access.antt =====
-- Whom the middleware of src/middlewares/auth.ts lets pass.
use messinger_backend.Prelude.{
  ℕ, ◌≡◌, ◌⊎◌, refl, subst, Bool, true, false, none, some, List, arith, ltb, Any, Option-cases, inl,
  inr,
}
use messinger_backend.Types.{Uuid, Date, UserRole}
use messinger_backend.Exceptions.{ok}
use messinger_backend.Entities.{Session}
use messinger_backend.Orm.{Orm, IsOrm, Found}
use messinger_backend.Tokens.{
  Tokens, Claims, Verdict, verified, token_expired, token_invalid, jwt_secret, jwt_refresh_secret,
}
use messinger_backend.Store.{Store}
use messinger_backend.Repositories.{hash_token, revoke_session, revoke_open_sessions}
use messinger_backend.Auth.Middleware.{
  Request, Response, authenticate, refresh, renew, rotate, check_access, bears_hash,
  revoke_all_sessions, revoke_invalid,
}

module _ ⦃o : Orm⦄ ⦃t : Tokens⦄ where
  -- A verified refresh token of a session that is open and not yet expired.
  abbrev pub Live : Request → Store → Uuid → List UserRole → Type 0
  Live req s user_id roles =
      (token : ℕ) × (c : Claims) × (r : Session) × (req.refresh_token ≡ some token)
      × (t.verify jwt_refresh_secret token s.clock ≡ verified c)
      × (c.sub ≡ user_id)
      × (c.roles ≡ roles)
      × Any (λ x. x ≡ r) s.sessions
      × (bears_hash (hash_token token) r ≡ true)
      × (r.is_revoked ≡ false)
      × (ltb r.expires_at s.clock ≡ false)

  -- A verified access token.
  abbrev pub Granted : Request → Store → Uuid → List UserRole → Type 0
  Granted req s user_id roles =
      (token : ℕ) × (c : Claims) × (req.access_token ≡ some token)
      × (t.verify jwt_secret token s.clock ≡ verified c)
      × (c.sub ≡ user_id)
      × (c.roles ≡ roles)

  -- What an answer that passes tells of the verdict and of the session.
  abbrev Renewed : Verdict → Session → Date → Response → Type 0
  Renewed (verified c) r now resp =
      (r.is_revoked ≡ false)
      × (ltb r.expires_at now ≡ false)
      × (resp.locals ≡ some (c.sub, c.roles))
  Renewed token_expired r now resp = ⊥
  Renewed token_invalid r now resp = ⊥

  renew_passes :
      (v : Verdict) (b : Bool) (token : ℕ) (now : Date) (r : Session) (s : Store) (resp : Response)
      → (renew b token now r v s).0 ≡ ok resp
      → resp.next ≡ none
      → Renewed v r now resp
  unfolding renew rotate revoke_invalid revoke_session revoke_all_sessions revoke_open_sessions
  renew_passes (verified c) b token now r s resp e p = (ground arith, ground arith, ground arith)
  renew_passes token_expired b token now r s resp e p = absurd (ground arith)
  renew_passes token_invalid b token now r s resp e p = absurd (ground arith)

  -- The locals of an answer that passes, and why it passes.
  abbrev pub Admitted : Request → Store → Response → Type 0
  Admitted req s resp =
      (user_id : Uuid) × (roles : List UserRole) × (resp.locals ≡ some (user_id, roles))
      × (Granted req s user_id roles ⊎ Live req s user_id roles)

  Renewed-Admitted :
      (l : IsOrm o) (v : Verdict) (req : Request) (token : ℕ) (r : Session) (s : Store)
      (resp : Response)
      → req.refresh_token ≡ some token
      → o.find_one _ (bears_hash (hash_token token)) s.sessions ≡ some r
      → t.verify jwt_refresh_secret token s.clock ≡ v
      → Renewed v r s.clock resp
      → Admitted req s resp
  Renewed-Admitted l (verified c) req token r s resp given f e (live, unexpired, locals) = (
    c.sub,
    c.roles,
    locals,
    inr (token, c, r, given, e, refl, refl, found.1, found.0, live, unexpired),
  )
    where
      found : Found (bears_hash (hash_token token)) s.sessions (some r)
      found =
          subst (Found (bears_hash (hash_token token)) s.sessions) f
            (l.find_one-Found _ (bears_hash (hash_token token)) s.sessions)
  Renewed-Admitted l token_expired req token r s resp given f e n = absurd n
  Renewed-Admitted l token_invalid req token r s resp given f e n = absurd n

  refresh_passes :
      (l : IsOrm o) (req : Request) (s : Store) (resp : Response)
      → (refresh req s).0 ≡ ok resp
      → resp.next ≡ none
      → Admitted req s resp
  unfolding refresh
  refresh_passes l req s resp e p = elim (Option-cases req.refresh_token) [
    | inl given ↦ absurd (ground arith)
    | inr (token, given) ↦
        elim (Option-cases (o.find_one _ (bears_hash (hash_token token)) s.sessions)) [
          | inl f ↦ absurd (ground arith)
          | inr (r, f) ↦
              Renewed-Admitted l (t.verify jwt_refresh_secret token s.clock) req token r s resp
                given f refl
                (renew_passes (t.verify jwt_refresh_secret token s.clock) req.is_bearer_client token
                  s.clock r s resp (ground arith) p)
        ]
  ]

  check_passes :
      (l : IsOrm o) (v : Verdict) (req : Request) (token : ℕ) (s : Store) (resp : Response)
      → req.access_token ≡ some token
      → t.verify jwt_secret token s.clock ≡ v
      → (check_access req v s).0 ≡ ok resp
      → resp.next ≡ none
      → Admitted req s resp
  unfolding check_access
  check_passes l (verified c) req token s resp given v e p =
      (c.sub, c.roles, ground arith, inl (token, c, given, v, refl, refl))
  check_passes l token_expired req token s resp given v e p = refresh_passes l req s resp e p
  check_passes l token_invalid req token s resp given v e p = absurd (ground arith)

  -- A request passes as a user with roles only on a verified access token, or on a verified refresh
  -- token whose digest is the current or the previous one of a stored session that is neither
  -- revoked nor expired; the user and the roles are the token's.
  pub authenticate_passes :
      (l : IsOrm o) (req : Request) (s : Store) (resp : Response)
      → (authenticate req s).0 ≡ ok resp
      → resp.next ≡ none
      → Admitted req s resp
  unfolding authenticate
  authenticate_passes l req s resp e p = elim (Option-cases req.access_token) [
    | inl given ↦ refresh_passes l req s resp (ground arith) p
    | inr (token, given) ↦
        check_passes l (t.verify jwt_secret token s.clock) req token s resp given refl
          (ground arith) p
  ]
