-- ===== src/Auth/Revocation.antt =====
-- What the middleware of src/middlewares/auth.ts does to the sessions.
use messinger_backend.Prelude.{
  ℕ, ◌≡◌, refl, Bool, true, false, not, ◌&&◌, none, some, List, [], ◌∷◌, arith, ◌==◌, any,
  map_where, Option-cases, inl, inr, filter,
}
use messinger_backend.Types.{
  Uuid, Date, UserRole, SessionRevokeReason, suspicious, expired, invalid,
}
use messinger_backend.Exceptions.{ok}
use messinger_backend.Entities.{Session}
use messinger_backend.Orm.{Orm, IsOrm, orm-eq-table_orm}
use messinger_backend.Tokens.{
  Tokens, Claims, Verdict, verified, token_expired, token_invalid, jwt_refresh_secret,
}
use messinger_backend.Store.{Store}
use messinger_backend.Repositories.{
  TokenPair, hash_token, rotate_session, rotated, revoked, session_of, sign_pair, revoke_session,
  revoke_open_sessions,
}
use messinger_backend.Auth.Middleware.{
  Request, authenticate, refresh, renew, rotate, check_access, bears_hash, revoke_all_sessions,
  revoke_invalid, refuses, cleared,
}

-- A request with a refresh token alone.
abbrev pub bare : ℕ → Bool → Request
bare token b = record { access_token = none; refresh_token = some token; is_bearer_client = b }

-- An open session with the id.
abbrev pub open_session : Uuid → Session → Bool
open_session id r = r.id == id && not r.is_revoked

-- A patch that opens no session.
opens_none :
    (id : Uuid) (p : Session → Bool) (f : Session → Session) (rows : List Session)
    → ((r : Session) → open_session id (f r) ≡ true → open_session id r ≡ true)
    → any (open_session id) rows ≡ false
    → any (open_session id) (map_where p f rows) ≡ false
opens_none id p f [] h e = refl
opens_none id p f (r ∷ rows) h e = ground (arith, h r, opens_none id p f rows h)

revoke_opens_none :
    (id : Uuid) (reason : SessionRevokeReason) (p : Session → Bool) (rows : List Session)
    → any (open_session id) rows ≡ false
    → any (open_session id) (map_where p (revoked reason) rows) ≡ false
revoke_opens_none id reason p rows = opens_none id p (revoked reason) rows (λ r h. ground arith)

rotated_opens_none :
    (id : Uuid) ⦃t : Tokens⦄ (now : Date) (hash : ℕ) (pair : TokenPair) (p : Session → Bool)
    (rows : List Session)
    → any (open_session id) rows ≡ false
    → any (open_session id) (map_where p (rotated now hash pair) rows) ≡ false
rotated_opens_none id now hash pair p rows =
    opens_none id p (rotated now hash pair) rows (λ r h. ground arith)

-- The rows of a user, none of them open any more.
closed_all :
    (user_id : Uuid) (reason : SessionRevokeReason) (rows : List Session)
    → any
        (λ r. r.user_id == user_id && not r.is_revoked)
        (map_where (λ r. r.user_id == user_id && not r.is_revoked) (revoked reason) rows)
      ≡ false
closed_all user_id reason [] = refl
closed_all user_id reason (r ∷ rows) = ground (arith, closed_all user_id reason rows)

others_kept :
    (user_id : Uuid) (reason : SessionRevokeReason) (rows : List Session)
    → filter
        (λ r. not (r.user_id == user_id))
        (map_where (λ r. r.user_id == user_id && not r.is_revoked) (revoked reason) rows)
      ≡ filter (λ r. not (r.user_id == user_id)) rows
others_kept user_id reason [] = refl
others_kept user_id reason (r ∷ rows) = ground (arith, others_kept user_id reason rows)

module _ ⦃o : Orm⦄ ⦃t : Tokens⦄ where
  rotate_session-opens_none :
      (l : IsOrm o) (session_id : Uuid) (roles : List UserRole) (token : ℕ) (id : Uuid) (s : Store)
      → any (open_session id) s.sessions ≡ false
      → any (open_session id) (rotate_session session_id roles token s).1.sessions ≡ false
  rotate_session-opens_none l = rw (orm-eq-table_orm l) (
      unfold rotate_session in
      λ session_id roles token id s h.
        elim (Option-cases (o.find_one _ (session_of session_id) s.sessions)) [
          | inl e ↦ ground arith
          | inr (r, e) ↦ ground (
            arith,
            rotated_opens_none id s.clock r.refresh_token_hash
                (sign_pair (record { sub = r.user_id; roles = roles; sid = r.id }) s.clock)
                (session_of r.id) s.sessions h,
          )
        ])

  rotate-opens_none :
      (l : IsOrm o) (b : Bool) (token : ℕ) (r : Session) (c : Claims) (id : Uuid) (s : Store)
      → any (open_session id) s.sessions ≡ false
      → any (open_session id) (rotate b token r c s).1.sessions ≡ false
  unfolding rotate
  rotate-opens_none l b token r c id s h =
      ground (arith, rotate_session-opens_none l r.id c.roles token id s h)

  renew-opens_none :
      (l : IsOrm o) (v : Verdict) (b : Bool) (token : ℕ) (now : Date) (r : Session) (id : Uuid)
      (s : Store)
      → any (open_session id) s.sessions ≡ false
      → any (open_session id) (renew b token now r v s).1.sessions ≡ false
  unfolding renew revoke_invalid revoke_session revoke_all_sessions revoke_open_sessions
  renew-opens_none l (verified c) b token now r id s h = ground (
    arith,
    rotate-opens_none l b token r c id s h,
    l.update_lem Session (session_of r.id) (revoked expired) s.sessions,
    revoke_opens_none id expired (session_of r.id) s.sessions h,
    l.update_lem Session (λ r. r.user_id == c.sub && not r.is_revoked) (revoked suspicious)
        s.sessions,
    revoke_opens_none id suspicious (λ r. r.user_id == c.sub && not r.is_revoked) s.sessions h,
  )
  renew-opens_none l token_expired b token now r id s h = ground (
    arith,
    l.update_lem Session (session_of r.id) (revoked expired) s.sessions,
    revoke_opens_none id expired (session_of r.id) s.sessions h,
  )
  renew-opens_none l token_invalid b token now r id s h = ground (
    arith,
    l.update_lem Session (session_of r.id) (revoked invalid) s.sessions,
    revoke_opens_none id invalid (session_of r.id) s.sessions h,
  )

  refresh-opens_none :
      (l : IsOrm o) (req : Request) (id : Uuid) (s : Store)
      → any (open_session id) s.sessions ≡ false
      → any (open_session id) (refresh req s).1.sessions ≡ false
  unfolding refresh
  refresh-opens_none l req id s h = elim (Option-cases req.refresh_token) [
    | inl e ↦ ground arith
    | inr (token, e) ↦
        elim (Option-cases (o.find_one _ (bears_hash (hash_token token)) s.sessions)) [
          | inl f ↦ ground arith
          | inr (r, f) ↦ ground (
            arith,
            renew-opens_none l (t.verify jwt_refresh_secret token s.clock) req.is_bearer_client
                token s.clock r id s h,
          )
        ]
  ]

  -- Whatever request is authenticated, and with whatever answer, a session that is revoked stays
  -- revoked, and no session is opened.
  pub authenticate_opens_nothing :
      (l : IsOrm o) (req : Request) (id : Uuid) (s : Store)
      → any (open_session id) s.sessions ≡ false
      → any (open_session id) (authenticate req s).1.sessions ≡ false
  unfolding authenticate check_access
  authenticate_opens_nothing l req id s h = elim (Option-cases req.access_token) [
    | inl e ↦ ground (arith, refresh-opens_none l req id s h)
    | inr (token, e) ↦ ground (arith, refresh-opens_none l req id s h)
  ]

  -- When a verified refresh token comes without an access token, and the session that its digest
  -- finds is revoked, the request is refused, every open session of the token's user is revoked, and
  -- the sessions of all other users stay as they were.
  pub reuse_revokes_all :
      (l : IsOrm o) (token : ℕ) (c : Claims) (r : Session) (s : Store) (b : Bool)
      → o.find_one _ (bears_hash (hash_token token)) s.sessions ≡ some r
      → t.verify jwt_refresh_secret token s.clock ≡ verified c
      → r.is_revoked ≡ true
      → (any
            (λ r. r.user_id == c.sub && not r.is_revoked)
            (authenticate (bare token b) s).1.sessions
          ≡ false)
        × (filter (λ r. not (r.user_id == c.sub)) (authenticate (bare token b) s).1.sessions
            ≡ filter (λ r. not (r.user_id == c.sub)) s.sessions)
        × ((authenticate (bare token b) s).0 ≡ ok (refuses cleared "SUSPICIOUS_ACTIVITY_DETECTED"))
  unfolding authenticate refresh renew revoke_all_sessions revoke_open_sessions
  reuse_revokes_all l token c r s b f v e = (
    ground (
      arith,
      l.update_lem Session (λ r. r.user_id == c.sub && not r.is_revoked) (revoked suspicious)
          s.sessions,
      closed_all c.sub suspicious s.sessions,
    ),
    ground (
      arith,
      l.update_lem Session (λ r. r.user_id == c.sub && not r.is_revoked) (revoked suspicious)
          s.sessions,
      others_kept c.sub suspicious s.sessions,
    ),
    ground arith,
  )
