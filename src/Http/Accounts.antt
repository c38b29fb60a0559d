-- ===== src/Http/Accounts.antt =====
-- src/controllers/auth.controller.ts, admin.controller.ts and user.controler.ts. What a controller
-- picks out of a row for the body is not written out: the body carries the row.
use messinger_backend.Prelude.{ℕ, Option, none, some}
use messinger_backend.Exceptions.{type_error, not_found}
use messinger_backend.Orm.{Orm}
use messinger_backend.Cipher.{Cipher}
use messinger_backend.R2.{R2}
use messinger_backend.Tokens.{Tokens}
use messinger_backend.Store.{Action, pure, throw, ◌>>=◌, ◌>>◌, or_throw}
use messinger_backend.Auth.Middleware.{cleared, set}
use messinger_backend.Auth.Service.{signin, sign_out}
use messinger_backend.Auth.Accounts.{
  signup, admin_sign_in, create_admin, restore_user_login_key, update_admin_password, get_me,
  find_user_by_code, list_users, list_admins,
}
use messinger_backend.Administration.{
  delete_admin, delete_user, list_user_conversations, list_conversation_messages,
}
use messinger_backend.Http.Requests.{Incoming, user_agent_of, ip_address_of, logout_token}
use messinger_backend.Http.Exchange.{
  Dto, sign_up_dto, sign_in_dto, user_code_dto, list_users_dto, admin_dto, password_dto, user_dto,
  list_user_messages_dto, list_conversations_dto, no_body, sign_up_body, user_body, admin_body,
  key_body, history_body, users_body, conversations_body, Answer, Exchange, sends, the_user,
}

module _ ⦃o : Orm⦄ ⦃t : Tokens⦄ where
  unfoldable pub signup_controller : Incoming → Option Dto → Action Answer
  unfolding signup
  signup_controller req (some (sign_up_dto role username)) = do
    (user, login_key) ← signup username role req.new_user_code req.new_login_key
    pure (sends 201 (sign_up_body user.username user.status login_key))
  signup_controller req _ = throw type_error

  unfoldable pub signin_controller : Incoming → Option Dto → Action Answer
  unfolding signin
  signin_controller req (some (sign_in_dto login_key)) = do
    (user, pair) ← signin login_key (user_agent_of req) (ip_address_of req)
    pure (record { status = 201; body = user_body user; cookies = set pair; headers = none })
  signin_controller req _ = throw type_error

  unfoldable pub mobile_signin_controller : Incoming → Option Dto → Action Answer
  unfolding signin
  mobile_signin_controller req (some (sign_in_dto login_key)) = do
    (user, pair) ← signin login_key (user_agent_of req) (ip_address_of req)
    pure (record (sends 201 (user_body user)) { headers = some pair })
  mobile_signin_controller req _ = throw type_error

  -- `if (refreshToken)`
  unfoldable pub sign_out_with : Option ℕ → Action (Unit {0})
  unfolding sign_out
  sign_out_with none = pure tt
  sign_out_with (some token) = sign_out token

  unfoldable pub logout_controller : Incoming → Action Answer
  unfolding sign_out_with
  logout_controller req = do
    sign_out_with (logout_token req)
    pure (record (sends 204 no_body) { cookies = cleared })

  unfoldable pub admin_sign_in_controller : Incoming → Option Dto → Action Answer
  unfolding admin_sign_in
  admin_sign_in_controller req (some (admin_dto password admin_name)) = do
    (role, pair) ← admin_sign_in admin_name password (user_agent_of req) (ip_address_of req)
    pure (record (sends 201 (admin_body admin_name)) { cookies = set pair })
  admin_sign_in_controller req _ = throw type_error

  unfoldable pub create_admin_controller : Option Dto → Action Answer
  unfolding create_admin
  create_admin_controller (some (admin_dto password admin_name)) = do
    admin ← create_admin admin_name password
    pure (sends 201 (user_body admin))
  create_admin_controller _ = throw type_error

  unfoldable pub restore_login_key_controller : Incoming → Option Dto → Action Answer
  unfolding restore_user_login_key
  restore_login_key_controller req (some (user_dto user_id)) = do
    login_key ← restore_user_login_key user_id req.new_login_key
    pure (sends 201 (key_body login_key))
  restore_login_key_controller req _ = throw type_error

  unfoldable pub update_password_controller : Exchange → Option Dto → Action Answer
  unfolding update_admin_password
  update_password_controller x (some (password_dto password)) = do
    user_id ← the_user x
    update_admin_password user_id password
    pure (sends 204 no_body)
  update_password_controller x _ = throw type_error

module _ ⦃o : Orm⦄ where
  unfoldable pub get_me_controller : Exchange → Action Answer
  unfolding get_me
  get_me_controller x = do
    user_id ← the_user x
    user ← get_me user_id
    pure (sends 201 (user_body user))

  unfoldable pub get_user_by_code_controller : Option Dto → Action Answer
  unfolding find_user_by_code
  get_user_by_code_controller (some (user_code_dto user_code)) = do
    found ← find_user_by_code user_code
    user ← or_throw found (not_found "USER_NOT_FOUND")
    pure (sends 200 (user_body user))
  get_user_by_code_controller _ = throw type_error

  unfoldable pub delete_admin_controller : Option Dto → Action Answer
  unfolding delete_admin
  delete_admin_controller (some (user_dto user_id)) = do
    delete_admin user_id
    pure (sends 204 no_body)
  delete_admin_controller _ = throw type_error

  unfoldable pub list_users_controller : Option Dto → Action Answer
  unfolding list_users
  list_users_controller (some (list_users_dto cursor limit)) = do
    result ← list_users cursor limit
    pure (sends 201 (users_body result))
  list_users_controller _ = throw type_error

  unfoldable pub list_admins_controller : Option Dto → Action Answer
  unfolding list_admins
  list_admins_controller (some (list_users_dto cursor limit)) = do
    result ← list_admins cursor limit
    pure (sends 201 (users_body result))
  list_admins_controller _ = throw type_error

  -- `userId!`, which the schema leaves optional; the query with an undefined one is not modelled, and
  -- fails here.
  unfoldable pub list_user_conversations_controller : Option Dto → Action Answer
  unfolding list_user_conversations
  list_user_conversations_controller (some (list_conversations_dto (some user_id) cursor limit)) =
      do
        result ← list_user_conversations user_id cursor limit
        pure (sends 201 (conversations_body result))
  list_user_conversations_controller _ = throw type_error

module _ ⦃o : Orm⦄ ⦃r : R2⦄ where
  unfoldable pub delete_user_controller : Option Dto → Action Answer
  unfolding delete_user
  delete_user_controller (some (user_dto user_id)) = do
    delete_user user_id
    pure (sends 204 no_body)
  delete_user_controller _ = throw type_error

module _ ⦃o : Orm⦄ ⦃e : Cipher⦄ where
  unfoldable pub list_conversation_messages_controller : Option Dto → Action Answer
  unfolding list_conversation_messages
  list_conversation_messages_controller
        (some (list_user_messages_dto user_id conversation_id cursor limit)) =
      do
        result ← list_conversation_messages user_id conversation_id limit cursor
        pure (sends 201 (history_body result))
  list_conversation_messages_controller _ = throw type_error
