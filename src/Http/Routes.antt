-- ===== src/Http/Routes.antt =====
-- src/routes/v1/index.ts. The prefix under which src/app.ts mounts the routes is left out of the paths.
use messinger_backend.Prelude.{List, [], ◌∷◌, String, ◌++◌}
use messinger_backend.Types.{UserRole, user, admin, super_admin}
use messinger_backend.Http.Exchange.{
  Schema, sign_up_schema, sign_in_schema, create_group_schema, leave_group_schema,
  transfer_ownership_schema, delete_conversation_schema, get_messages_schema, remove_member_schema,
  upload_schema, download_schema, user_code_schema, admin_schema, user_schema,
  list_user_messages_schema, list_users_schema, list_conversations_schema, subscription_schema,
  unsubscription_schema, delete_messages_schema, reset_unread_schema, password_schema,
}
use messinger_backend.Http.Middlewares.{Middleware, authenticates, authorizes, validates}

-- The handlers at the end of the routes.
pub data Controller : Type 0 where
  signs_in signs_in_mobile signs_up logs_out gets_me refreshes : Controller
  processes_upload downloads_attachment gets_user_by_code : Controller
  gets_bootstrap leaves_group gets_messages creates_group transfers_ownership : Controller
  removes_member deletes_group deletes_private deletes_messages resets_unread : Controller
  signs_in_admin creates_admin restores_login_key deletes_user deletes_admin : Controller
  lists_admins lists_users lists_user_conversations lists_conversation_messages : Controller
  updates_password subscribes_web unsubscribes_web : Controller

pub record Route : Type 0 where
  pub method : String
  pub path : String
  pub middlewares : List Middleware
  pub controller : Controller

abbrev pub route : String → String → List Middleware → Controller → Route
route method path middlewares controller = record {
  method = method;
  path = path;
  middlewares = middlewares;
  controller = controller;
}

-- `authenticate, authorize(…allowed), validateDTO(schema)`
abbrev pub guarded : List UserRole → Schema → List Middleware
guarded allowed schema = authenticates ∷ authorizes allowed ∷ validates schema ∷ []

abbrev pub for_users : Schema → List Middleware
for_users schema = guarded (user ∷ []) schema

abbrev pub admins : List UserRole
admins = super_admin ∷ admin ∷ []

abbrev pub for_admins : Schema → List Middleware
for_admins schema = guarded admins schema

abbrev pub account_routes : List Route
account_routes =
    route "POST" "/sign-in" (validates sign_in_schema ∷ []) signs_in
    ∷ route "POST" "/mobile/sign-in" (validates sign_in_schema ∷ []) signs_in_mobile
    ∷ route "POST" "/sign-up" (validates sign_up_schema ∷ []) signs_up
    ∷ route "POST" "/logout" (authenticates ∷ []) logs_out
    ∷ route "GET" "/me" (authenticates ∷ []) gets_me
    ∷ route "POST" "/refresh" (authenticates ∷ []) refreshes
    ∷ route "POST" "/upload" (for_users upload_schema) processes_upload
    ∷ route "GET" "/download" (guarded (user ∷ admin ∷ super_admin ∷ []) download_schema)
        downloads_attachment
    ∷ route "GET" "/user-code" (for_users user_code_schema) gets_user_by_code
    ∷ []

abbrev pub leave_group_route : Route
leave_group_route =
    route "POST" "/conversation/leave-group"
      (authorizes (user ∷ []) ∷ authenticates ∷ validates leave_group_schema ∷ []) leaves_group

abbrev pub conversation_routes : List Route
conversation_routes =
    route "GET" "/conversation-list" (for_users list_conversations_schema) gets_bootstrap
    ∷ leave_group_route
    ∷ route "GET" "/conversation/messages" (for_users get_messages_schema) gets_messages
    ∷ route "POST" "/conversation/create-group" (for_users create_group_schema) creates_group
    ∷ route "POST" "/conversation/transfer-ownership" (for_users transfer_ownership_schema)
        transfers_ownership
    ∷ route "POST" "/conversation/remove-group-member" (for_users remove_member_schema)
        removes_member
    ∷ route "DELETE" "/conversation/delete-group" (for_users delete_conversation_schema)
        deletes_group
    ∷ route "DELETE" "/conversation/delete-private" (for_users delete_conversation_schema)
        deletes_private
    ∷ route "DELETE" "/conversation/delete-messages" (for_users delete_messages_schema)
        deletes_messages
    ∷ route "PATCH" "/conversation/reset-unread-messages-count" (for_users reset_unread_schema)
        resets_unread
    ∷ []

abbrev pub admin_routes : List Route
admin_routes =
    route "POST" "/admin/sign-in" (validates admin_schema ∷ []) signs_in_admin
    ∷ route "POST" "/admin/create-admin" (for_admins admin_schema) creates_admin
    ∷ route "PATCH" "/admin/restore-login-key" (for_admins user_schema) restores_login_key
    ∷ route "DELETE" "/admin/delete-user" (for_admins user_schema) deletes_user
    ∷ route "DELETE" "/admin/delete-admin" (for_admins user_schema) deletes_admin
    ∷ route "GET" "/admin/list-admins"
        (authenticates ∷ validates list_users_schema ∷ authorizes admins ∷ []) lists_admins
    ∷ route "GET" "/admin/list-users" (for_admins list_users_schema) lists_users
    ∷ route "GET" "/admin/list-user-conversations" (for_admins list_conversations_schema)
        lists_user_conversations
    ∷ route "GET" "/admin/list-conversation-messages" (for_admins list_user_messages_schema)
        lists_conversation_messages
    ∷ route "PATCH" "/admin/update-password" (for_admins password_schema) updates_password
    ∷ []

abbrev pub push_routes : List Route
push_routes =
    route "POST" "/push/subscribe-web" (for_users subscription_schema) subscribes_web
    ∷ route "DELETE" "/push/unsubscribe-web" (for_users unsubscription_schema) unsubscribes_web
    ∷ []

unfoldable pub router : List Route
router = account_routes ++ conversation_routes ++ admin_routes ++ push_routes
