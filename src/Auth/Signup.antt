-- ===== src/Auth/Signup.antt =====
-- From the signup to the sign-in.
use messinger_backend.Prelude.{
  ◌≡◌, ◌&&◌, refl, List, Any, Bool, true, false, Option, none, some, [], ◌∷◌, ◌++◌, String, arith,
  any, option_eq, inl, inr, Option-cases, Bool-cases, subst,
}
use messinger_backend.Prelude.Rows.{last_with, any-append}
use messinger_backend.Types.{UserRole}
use messinger_backend.Exceptions.{ok}
use messinger_backend.Entities.{User}
use messinger_backend.Orm.{Orm, IsOrm, Found, insert_rows}
use messinger_backend.Tokens.{Tokens}
use messinger_backend.Store.{Store, continue}
use messinger_backend.Store.Constraints.{admits_user, same_login_key}
use messinger_backend.Repositories.{is_live, new_user, save_user, create_session}
use messinger_backend.Auth.Service.{signin, find_by_login_key_lookup}
use messinger_backend.Auth.Accounts.{signup, hash_login_key_or_password}

module _ ⦃o : Orm⦄ ⦃t : Tokens⦄ where
  -- The row that a signup saves.
  abbrev pub signed_up : String → UserRole → String → String → Store → User
  signed_up username role user_code login_key s = new_user (o.uuid s.serial) s.clock (record {
    username = some username;
    user_code = some user_code;
    login_key_hash = some (hash_login_key_or_password login_key);
    login_key_lookup = some (t.login_key_lookup login_key);
    role = role;
    admin_name = none;
    password_hash = none;
  })

  abbrev has_key : String → User → Bool
  has_key login_key u =
      option_eq u.login_key_lookup (some (t.login_key_lookup login_key)) && is_live u

  no_live_key :
      (login_key : String) (rows : List User)
      → any (same_login_key (some (t.login_key_lookup login_key))) rows ≡ false
      → any (has_key login_key) rows ≡ false
  no_live_key login_key [] h = refl
  no_live_key login_key (u ∷ rows) h = ground (arith, no_live_key login_key rows)

  -- What a fulfilled signup has done.
  signup_lem :
      (l : IsOrm o) (username : String) (role : UserRole) (user_code login_key : String) (s : Store)
      (u : User) (key : String)
      → (signup username role user_code login_key s).0 ≡ ok (u, key)
      → (u ≡ signed_up username role user_code login_key s)
        × (key ≡ login_key)
        × ((signup username role user_code login_key s).1.users
            ≡ s.users ++ signed_up username role user_code login_key s ∷ [])
        × (any (has_key login_key) s.users ≡ false)
  unfolding signup save_user
  signup_lem l username role user_code login_key s u key h =
      elim (Bool-cases (admits_user s.users row)) [
        | inr refused ↦ absurd (ground (arith, inserted))
        | inl admitted ↦ (
          ground (arith, inserted),
          ground (arith, inserted),
          ground (arith, inserted),
          ground (arith, no_live_key login_key s.users),
        )
      ]
    where
      row : User
      row = signed_up username role user_code login_key s

      inserted :
          o.insert User admits_user (row ∷ []) s.users ≡ insert_rows admits_user (row ∷ []) s.users
      inserted = l.insert_lem User admits_user (row ∷ []) s.users

  -- If `bcrypt.compare` accepts a key against its own hash: after a signup, signing in with the login
  -- key that the signup handed out opens a session for the very user that it saved, whatever the
  -- other users are; what can still fail is the database.
  pub signin-signup :
      (l : IsOrm o) (hash : (k : String) → t.bcrypt_compare k (t.bcrypt_hash k) ≡ true)
      (username : String) (role : UserRole) (user_code login_key : String) (s : Store) (u : User)
      (key user_agent : String) (ip_address : Option String)
      → (signup username role user_code login_key s).0 ≡ ok (u, key)
      → let after : Store = (signup username role user_code login_key s).1 in
        signin key user_agent ip_address after
        ≡ continue
            (λ pair later. (ok (u, pair), later))
            (create_session
              (record {
                user_id = u.id;
                roles = role ∷ [];
                user_agent = user_agent;
                ip_address = ip_address;
              })
              after)
  unfolding signin find_by_login_key_lookup
  signin-signup l hash username role user_code login_key s u key user_agent ip_address h =
      let (same_u, same_key, saved, new) =
        signup_lem l username role user_code login_key s u key h in
      elim (Option-cases (o.find_one User (has_key login_key) after.users)) [
        | inl e ↦ absurd (
            ground (
              arith,
              saved,
              subst (Found (has_key login_key) after.users) e found,
              any-append (has_key login_key) s.users (row ∷ []),
            ))
        | inr (v, e) ↦
            let (has, inside) = subst (Found (has_key login_key) after.users) e found in
            let same : v ≡ row =
              last_with (has_key login_key) s.users row v new has
                (subst (λ rows. Any (λ x. x ≡ v) rows) saved inside) in
            ground (arith, same_u, same_key, same, hash login_key)
      ]
    where
      row : User
      row = signed_up username role user_code login_key s

      after : Store
      after = (signup username role user_code login_key s).1

      found :
          Found (has_key login_key) after.users (o.find_one User (has_key login_key) after.users)
      found = l.find_one-Found User (has_key login_key) after.users
