-- ===== src/Auth/Rotation.antt =====
-- What `rotateSession` of src/repositories/session.repository.ts guarantees when tokens are used
-- more than once.
use messinger_backend.Prelude.{
  ℕ, ◌≡◌, refl, subst, Bool, true, false, not, ◌&&◌, ◌||◌, Option, none, some, List, [], ◌∷◌, arith,
  ◌==◌, option_eq, leb, any, map_where, ◌≢◌, ◌⊎◌, Bool-cases, inl, inr,
}
use messinger_backend.Prelude.Rows.{all_of_Any, any_of_Any, all, any-map_where}
use messinger_backend.Types.{Uuid, Date, UserRole}
use messinger_backend.Exceptions.{ok}
use messinger_backend.Entities.{Session}
use messinger_backend.Orm.{Orm, IsOrm, Found, orm-eq-table_orm}
use messinger_backend.Tokens.{Tokens}
use messinger_backend.Store.{Store}
use messinger_backend.Repositories.{
  TokenPair, hash_token, rotate_session, rotated, within_grace, session_of, sign_pair,
  refresh_rotation_grace_period,
}

-- The store at a later time.
abbrev pub at : Date → Store → Store
at now s = record s { clock = now }

module _ ⦃t : Tokens⦄ where
  -- The row carries the marks of the rotation.
  abbrev was_rotated : Date → ℕ → TokenPair → Session → Bool
  was_rotated now hash pair r =
      option_eq r.rotated_at (some now)
      && option_eq r.previous_refresh_token_hash (some hash)
      && option_eq r.rotated_access_token (some pair.access_token)
      && option_eq r.rotated_refresh_token (some pair.refresh_token)
      && r.refresh_token_hash == hash_token pair.refresh_token

  all-rotated :
      (now : Date) (hash : ℕ) (pair : TokenPair) (id : Uuid) (rows : List Session)
      → all
          (λ r. not (session_of id r) || was_rotated now hash pair r)
          (map_where (session_of id) (rotated now hash pair) rows)
        ≡ true
  all-rotated now hash pair id [] = refl
  all-rotated now hash pair id (x ∷ rows) = ground (arith, all-rotated now hash pair id rows)

  any-rotated :
      (now : Date) (hash : ℕ) (pair : TokenPair) (id : Uuid) (rows : List Session)
      → any (session_of id) (map_where (session_of id) (rotated now hash pair) rows)
        ≡ any (session_of id) rows
  any-rotated now hash pair id rows =
      any-map_where (session_of id) (session_of id) (rotated now hash pair) rows (λ x. ground arith)

  -- Whichever row with the id is found after the rotation, it carries the marks.
  Found-rotated :
      (now : Date) (hash : ℕ) (pair : TokenPair) (id : Uuid) (rows : List Session)
      (found : Option Session)
      → any (session_of id) rows ≡ true
      → Found (session_of id) (map_where (session_of id) (rotated now hash pair) rows) found
      → (r : Session) × (found ≡ some r)
        × (session_of id r ≡ true)
        × (was_rotated now hash pair r ≡ true)
  Found-rotated now hash pair id rows none there f =
      absurd (ground (arith, any-rotated now hash pair id rows))
  Found-rotated now hash pair id rows (some r) there f = (
    r,
    refl,
    f.0,
    ground (
      arith,
      f.0,
      all_of_Any (λ r. not (session_of id r) || was_rotated now hash pair r)
          (map_where (session_of id) (rotated now hash pair) rows) r f.1
          (all-rotated now hash pair id rows),
    ),
  )

module _ ⦃o : Orm⦄ ⦃t : Tokens⦄ where
  -- The pair that a rotation of the row hands out.
  abbrev pub new_pair : Session → List UserRole → Date → TokenPair
  new_pair r roles now = sign_pair (record { sub = r.user_id; roles = roles; sid = r.id }) now

  -- The row that is found by the id, after the rotation of the row `r` found before.
  row_after :
      (l : IsOrm o) (id : Uuid) (roles : List UserRole) (now : Date) (rows : List Session)
      (r : Session)
      → o.find_one _ (session_of id) rows ≡ some r
      → (r' : Session) × (o.find_one _ (session_of id) (
            map_where
              (session_of id)
              (rotated now r.refresh_token_hash (new_pair r roles now))
              rows)
          ≡ some r')
        × (session_of id r' ≡ true)
        × (was_rotated now r.refresh_token_hash (new_pair r roles now) r' ≡ true)
  row_after l id roles now rows r e =
      Found-rotated now r.refresh_token_hash (new_pair r roles now) id rows _
        (any_of_Any (session_of id) rows r found.1 found.0) (l.find_one-Found _ (session_of id) _)
    where
      found : Found (session_of id) rows (some r)
      found = subst (Found (session_of id) rows) e (l.find_one-Found _ (session_of id) rows)

  found_id :
      (l : IsOrm o) (id : Uuid) (rows : List Session) (r : Session)
      → o.find_one _ (session_of id) rows ≡ some r
      → r.id ≡ id
  found_id l id rows r e = ground (arith, found.0)
    where
      found : Found (session_of id) rows (some r)
      found = subst (Found (session_of id) rows) e (l.find_one-Found _ (session_of id) rows)

  -- The first rotation, by the current token: a new pair, and the row marked.
  rotate_first :
      (l : IsOrm o) (id : Uuid) (roles : List UserRole) (token : ℕ) (s : Store) (r : Session)
      → o.find_one _ (session_of id) s.sessions ≡ some r
      → r.refresh_token_hash ≡ hash_token token
      → within_grace token s.clock r ≡ false
      → rotate_session id roles token s ≡ (
        ok (some (new_pair r roles s.clock)),
        record s {
          sessions =
              map_where
                (session_of r.id)
                (rotated s.clock r.refresh_token_hash (new_pair r roles s.clock))
                s.sessions;
        },
      )
  rotate_first l =
      rw (orm-eq-table_orm l)
        (unfold rotate_session in λ id roles token s r found current fresh. ground arith)

  -- When a call presents the current token of the session that is found by the id, outside of the
  -- grace period of an earlier exchange, and the same token is presented again not later than the
  -- grace period after, the second call resolves as the first one, to the same pair, whatever roles
  -- it is given, and writes nothing.
  pub rotate_again_within_grace :
      (l : IsOrm o) (id : Uuid) (roles roles' : List UserRole) (token : ℕ) (s : Store) (r : Session)
      (later : Date)
      → o.find_one _ (session_of id) s.sessions ≡ some r
      → r.refresh_token_hash ≡ hash_token token
      → within_grace token s.clock r ≡ false
      → leb (t.difference_in_milliseconds later s.clock) refresh_rotation_grace_period ≡ true
      → rotate_session id roles' token (at later (rotate_session id roles token s).1)
        ≡ ((rotate_session id roles token s).0, at later (rotate_session id roles token s).1)
  rotate_again_within_grace l = rw (orm-eq-table_orm l) (
      unfold rotate_session in
      λ id roles roles' token s r later found current fresh soon.
        let (r', found', id', marks) = row_after l id roles s.clock s.sessions r found in
        ground (arith, found_id l id s.sessions r found, found', marks))

  -- When a call has presented the current token of the session that is found by the id, outside of
  -- the grace period of an earlier exchange, the same token, presented again later than the grace
  -- period after, is refused, and nothing is written; the digests of the old and of the new token
  -- differ.
  pub rotate_again_after_grace :
      (l : IsOrm o) (id : Uuid) (roles roles' : List UserRole) (token : ℕ) (s : Store) (r : Session)
      (later : Date)
      → o.find_one _ (session_of id) s.sessions ≡ some r
      → r.refresh_token_hash ≡ hash_token token
      → within_grace token s.clock r ≡ false
      → leb (t.difference_in_milliseconds later s.clock) refresh_rotation_grace_period ≡ false
      → hash_token token ≢ hash_token (new_pair r roles s.clock).refresh_token
      → rotate_session id roles' token (at later (rotate_session id roles token s).1)
        ≡ (ok none, at later (rotate_session id roles token s).1)
  rotate_again_after_grace l = rw (orm-eq-table_orm l) (
      unfold rotate_session in
      λ id roles roles' token s r later found current fresh late differs.
        let (r', found', id', marks) = row_after l id roles s.clock s.sessions r found in
        ground (arith, found_id l id s.sessions r found, found', marks))

  -- When a call has presented the current token of the session that is found by the id, outside of
  -- the grace period of an earlier exchange, the refresh token that is signed then is the session's
  -- token: a call that presents it, at whatever time, resolves to a pair, which is signed for the
  -- session, as it is found then, at that time, or is the pair of the first call.
  pub rotate_with_new_token :
      (l : IsOrm o) (id : Uuid) (roles roles' : List UserRole) (token : ℕ) (s : Store) (r : Session)
      (later : Date)
      → o.find_one _ (session_of id) s.sessions ≡ some r
      → r.refresh_token_hash ≡ hash_token token
      → within_grace token s.clock r ≡ false
      → let again =
          rotate_session id roles'
            (new_pair r roles s.clock).refresh_token
            (at later (rotate_session id roles token s).1) in
        (r' : Session) × (o.find_one _ (session_of id) (rotate_session id roles token s).1.sessions
          ≡ some r')
        × ((again.0 ≡ ok (some (new_pair r' roles' later)))
            ⊎ (again.0 ≡ ok (some (new_pair r roles s.clock))))
  rotate_with_new_token l = rw (orm-eq-table_orm l) (
      unfold rotate_session in
      λ id roles roles' token s r later found current fresh.
        let (r', found', id', marks) = row_after l id roles s.clock s.sessions r found in
        let same = found_id l id s.sessions r found in
        elim (Bool-cases (within_grace (new_pair r roles s.clock).refresh_token later r')) [
          | inl early ↦
              (r', ground (arith, same, found'), inr (ground (arith, same, found', marks)))
          | inr plain ↦
              (r', ground (arith, same, found'), inl (ground (arith, same, found', marks)))
        ])
