-- ===== src/Auth/Accounts.antt =====
-- `signup`, `adminSignIn`, `createAdmin` and `hashLoginKeyOrPassword` of
-- src/services/auth.service.ts, src/services/user.service.ts, and of src/services/admin.service.ts
-- what concerns accounts. A generated user code or login key is an argument, since it is random.
use messinger_backend.Prelude.{
  ℕ, Bool, not, ◌&&◌, Option, none, some, List, [], ◌∷◌, String, ◌==◌, is_some, option_same_text,
  any,
}
use messinger_backend.Types.{Uuid, UserRole, user, admin}
use messinger_backend.Exceptions.{not_found, unauthorized, conflict, query_failed}
use messinger_backend.Entities.{User}
use messinger_backend.Orm.{Orm}
use messinger_backend.Tokens.{Tokens}
use messinger_backend.Pagination.{Paginated, paginate}
use messinger_backend.Store.{Action, pure, gets, throw_if, or_throw, ◌>>=◌, ◌>>◌}
use messinger_backend.Store.Constraints.{user_exists, same_login_key}
use messinger_backend.Repositories.{
  TokenPair, create_session, save_user, find_user, update_user, get_all_users,
}
use messinger_backend.Auth.Service.{compare_login_key_or_password}

module _ ⦃o : Orm⦄ ⦃t : Tokens⦄ where
  abbrev pub hash_login_key_or_password : String → ℕ
  hash_login_key_or_password key = t.bcrypt_hash key

  -- The saved user and the login key.
  unfoldable pub signup : String → UserRole → String → String → Action (User × String)
  unfolding save_user
  signup username role user_code login_key = do
    saved ← save_user (record {
      username = some username;
      user_code = some user_code;
      login_key_hash = some (hash_login_key_or_password login_key);
      login_key_lookup = some (t.login_key_lookup login_key);
      role = role;
      admin_name = none;
      password_hash = none;
    })
    pure (saved, login_key)

  -- `findOne({ where: { adminName } })`
  abbrev pub find_admin : String → Action (Option User)
  find_admin admin_name = find_user (λ u. option_same_text u.admin_name (some admin_name))

  -- The role of the admin and the tokens; the name is the given one.
  unfoldable pub admin_sign_in :
      String → String → String → Option String → Action (UserRole × TokenPair)
  unfolding create_session
  admin_sign_in admin_name password user_agent ip_address = do
    found ← find_admin admin_name
    row ← or_throw found (not_found "ADMIN_NOT_FOUND")
    is_valid ← compare_login_key_or_password password row.password_hash
    throw_if (not is_valid) (unauthorized "INVALID_PASSWORD")
    pair ← create_session (record {
      user_id = row.id;
      roles = row.role ∷ [];
      user_agent = user_agent;
      ip_address = ip_address;
    })
    pure (row.role, pair)

  unfoldable pub create_admin : String → String → Action User
  unfolding save_user
  create_admin admin_name password = do
    found ← find_admin admin_name
    throw_if (is_some found) (conflict "ADMIN_ALREADY_EXISTS")
    save_user (record {
      username = none;
      user_code = none;
      login_key_hash = none;
      login_key_lookup = none;
      role = admin;
      admin_name = some admin_name;
      password_hash = some (hash_login_key_or_password password);
    })

  -- An update that gives the user the lookup of another user, which the server refuses.
  abbrev pub clashes : Uuid → ℕ → List User → Bool
  clashes user_id key rows =
      user_exists rows user_id
      && any (λ u. same_login_key (some key) u && not (u.id == user_id)) rows

  -- The new login key is handed out.
  unfoldable pub restore_user_login_key : Uuid → String → Action String
  restore_user_login_key user_id login_key = do
    refused ← gets (λ s. clashes user_id (t.login_key_lookup login_key) s.users)
    throw_if refused query_failed
    update_user user_id (λ u. record u {
      login_key_hash = some (hash_login_key_or_password login_key);
      login_key_lookup = some (t.login_key_lookup login_key);
    })
    pure login_key

  unfoldable pub update_admin_password : Uuid → String → Action (Unit {0})
  update_admin_password user_id password =
      update_user user_id
        (λ u. record u { password_hash = some (hash_login_key_or_password password) })

module _ ⦃o : Orm⦄ where
  unfoldable pub get_me : Uuid → Action User
  get_me user_id = do
    found ← find_user (λ u. u.id == user_id)
    or_throw found (not_found "User not found")

  unfoldable pub find_user_by_code : String → Action (Option User)
  find_user_by_code user_code = find_user (λ u. option_same_text u.user_code (some user_code))

  unfoldable pub list_users : Option Uuid → ℕ → Action (Paginated User)
  unfolding get_all_users paginate
  list_users cursor limit = do users ← get_all_users user cursor limit; pure (paginate users limit)

  unfoldable pub list_admins : Option Uuid → ℕ → Action (Paginated User)
  unfolding get_all_users paginate
  list_admins cursor limit = do
    users ← get_all_users admin cursor limit
    pure (paginate users limit)
