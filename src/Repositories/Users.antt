-- ===== src/Repositories/Users.antt =====
-- src/repositories/user.repository.ts, and the calls of the inherited methods of the repository.
use mathlib.Core.Option
use messinger_backend.Prelude.{
  ℕ, suc, not, is_some, Bool, true, ◌&&◌, Option, none, some, List, [], ◌∷◌, String, ◌==◌, ltb,
  take,
}
use messinger_backend.Types.{Uuid, Date, UserRole, active, same_role}
use messinger_backend.Entities.{User}
use messinger_backend.Orm.{Orm}
use messinger_backend.Store.{Action, pure, gets, modify, generate, ◌>>=◌, ◌>>◌, or_fail}
use messinger_backend.Store.Constraints.{admits_user}

-- `UserRepository.create({ … })`
pub record NewUser : Type 0 where
  pub username : Option String
  pub user_code : Option String
  pub login_key_hash : Option ℕ
  pub login_key_lookup : Option ℕ
  pub role : UserRole
  pub admin_name : Option String
  pub password_hash : Option ℕ

abbrev pub new_user : Uuid → Date → NewUser → User
new_user id now u = record {
  id = id;
  username = u.username;
  login_key_hash = u.login_key_hash;
  login_key_lookup = u.login_key_lookup;
  user_code = u.user_code;
  avatar_url = none;
  role = u.role;
  status = active;
  admin_name = u.admin_name;
  password_hash = u.password_hash;
  last_seen_at = none;
  created_at = now;
  updated_at = now;
  deleted_at = none;
}

-- `where.createdAt = LessThan(…)`, if the cursor found a user.
abbrev pub before_user : Option User → Date → Bool
before_user none created_at = true
before_user (some cursor) created_at = ltb created_at cursor.created_at

-- `deletedAt IS NULL`, which TypeORM adds to what it finds, since `deletedAt` is a
-- `@DeleteDateColumn`.
abbrev pub is_live : User → Bool
is_live u = not (is_some u.deleted_at)

module _ ⦃o : Orm⦄ where
  unfoldable pub save_user : NewUser → Action User
  save_user u = do
    id ← generate
    row ← gets (λ s. new_user id s.clock u)
    inserted ← gets (λ s. o.insert _ admits_user (row ∷ []) s.users)
    table ← or_fail inserted
    modify (λ s. record s { users = table })
    pure row

  abbrev pub find_user : (User → Bool) → Action (Option User)
  find_user p = gets (λ s. o.find_one User (λ u. p u && is_live u) s.users)

  -- `UserRepository.update({ id }, patch)`
  abbrev pub update_user : Uuid → (User → User) → Action (Unit {0})
  update_user id patch = modify (λ s. record s {
    users =
        o.update User (λ u. u.id == id) (λ u. record (patch u) { updated_at = s.clock }) s.users;
  })

  -- The user of the cursor, with the date of creation as it is read.
  unfoldable pub find_user_cursor : Option Uuid → Action (Option User)
  find_user_cursor none = pure none
  find_user_cursor (some cursor) = do
    found ← find_user (λ u. u.id == cursor)
    pure (Option.map {A = User} (λ u. record u { created_at = o.read_date u.created_at }) found)

  unfoldable pub get_all_users : UserRole → Option Uuid → ℕ → Action (List User)
  unfolding find_user_cursor
  get_all_users role cursor limit = do
    found ← find_user_cursor cursor
    gets (λ s. take (suc limit) (
        o.find_sorted User
          (λ u. same_role u.role role && before_user found u.created_at && is_live u)
          (λ u. u.created_at) true s.users))
