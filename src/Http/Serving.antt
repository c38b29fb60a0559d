-- ===== src/Http/Serving.antt =====
-- How express serves a request with the routes, and src/logging/errors/error-handler.ts.
use messinger_backend.Prelude.{Bool, ◌&&◌, Option, none, some, List, [], ◌∷◌, same_text}
use messinger_backend.Exceptions.{Exception, http_code, Result, ok, err}
use messinger_backend.Orm.{Orm}
use messinger_backend.Cipher.{Cipher}
use messinger_backend.Packages.{Packages}
use messinger_backend.R2.{R2}
use messinger_backend.Tokens.{Tokens}
use messinger_backend.Store.{Store, Action, pure}
use messinger_backend.Auth.Middleware.{Cookies, kept, cleared, set}
use messinger_backend.Repositories.{TokenPair}
use messinger_backend.Http.Exchange.{Zod, Exchange, Answer, no_body, error_body, sends}
use messinger_backend.Http.Requests.{Incoming}
use messinger_backend.Http.Middlewares.{Passage, fresh, chain}
use messinger_backend.Http.Conversations.{
  get_conversations_bootstrap, get_messages, create_group_controller, leave_group_controller,
  transfer_ownership_controller, remove_member_controller, delete_group_controller,
  delete_private_controller, reset_unread_controller, delete_messages_controller,
}
use messinger_backend.Http.Accounts.{
  signup_controller, signin_controller, mobile_signin_controller, logout_controller,
  admin_sign_in_controller, create_admin_controller, restore_login_key_controller,
  update_password_controller, get_me_controller, get_user_by_code_controller,
  delete_admin_controller, list_users_controller, list_admins_controller,
  list_user_conversations_controller, delete_user_controller, list_conversation_messages_controller,
}
use messinger_backend.Http.Files.{
  process_upload, download_attachment, subscribe_web_controller, unsubscribe_web_controller,
}
use messinger_backend.Http.Routes.{
  Controller, Route, router, signs_in, signs_in_mobile, signs_up, logs_out, gets_me, refreshes,
  processes_upload, downloads_attachment, gets_user_by_code, gets_bootstrap, leaves_group,
  gets_messages, creates_group, transfers_ownership, removes_member, deletes_group, deletes_private,
  deletes_messages, resets_unread, signs_in_admin, creates_admin, restores_login_key, deletes_user,
  deletes_admin, lists_admins, lists_users, lists_user_conversations, lists_conversation_messages,
  updates_password, subscribes_web, unsubscribes_web,
}

-- The error handler. What is in the cookies and headers by then is sent along.
unfoldable pub handle_error : Exception → Exchange → Answer
handle_error e x = record {
  status = http_code e;
  body = error_body e;
  cookies = x.cookies;
  headers = x.headers;
}

abbrev later_cookies : Cookies → Cookies → Cookies
later_cookies earlier kept = earlier
later_cookies earlier cleared = cleared
later_cookies earlier (set pair) = set pair

abbrev later_headers : Option TokenPair → Option TokenPair → Option TokenPair
later_headers earlier none = earlier
later_headers earlier (some pair) = some pair

-- What a controller has sent, with what the middlewares have set.
abbrev pub answered : Exchange → Result Answer × Store → Answer × Store
answered x (ok a, s) = (
  record a {
    cookies = later_cookies x.cookies a.cookies;
    headers = later_headers x.headers a.headers;
  },
  s,
)
answered x (err e, s) = (handle_error e x, s)

module _ ⦃o : Orm⦄ ⦃t : Tokens⦄ ⦃k : Packages⦄ ⦃r : R2⦄ ⦃e : Cipher⦄ where
  unfoldable pub control : Controller → Incoming → Exchange → Action Answer
  unfolding get_conversations_bootstrap get_messages create_group_controller leave_group_controller
      transfer_ownership_controller remove_member_controller delete_group_controller
      delete_private_controller reset_unread_controller delete_messages_controller signup_controller
      signin_controller mobile_signin_controller logout_controller admin_sign_in_controller
      create_admin_controller restore_login_key_controller update_password_controller
      get_me_controller get_user_by_code_controller delete_admin_controller list_users_controller
      list_admins_controller list_user_conversations_controller delete_user_controller
      list_conversation_messages_controller process_upload download_attachment
      subscribe_web_controller unsubscribe_web_controller
  control signs_in req x = signin_controller req x.validated_dto
  control signs_in_mobile req x = mobile_signin_controller req x.validated_dto
  control signs_up req x = signup_controller req x.validated_dto
  control logs_out req x = logout_controller req
  control gets_me req x = get_me_controller x
  control refreshes req x = pure (sends 204 no_body)
  control processes_upload req x = process_upload x x.validated_dto
  control downloads_attachment req x = download_attachment x.validated_dto
  control gets_user_by_code req x = get_user_by_code_controller x.validated_dto
  control gets_bootstrap req x = get_conversations_bootstrap x x.validated_dto
  control leaves_group req x = leave_group_controller x x.validated_dto
  control gets_messages req x = get_messages x x.validated_dto
  control creates_group req x = create_group_controller x x.validated_dto
  control transfers_ownership req x = transfer_ownership_controller x x.validated_dto
  control removes_member req x = remove_member_controller x x.validated_dto
  control deletes_group req x = delete_group_controller x x.validated_dto
  control deletes_private req x = delete_private_controller x x.validated_dto
  control deletes_messages req x = delete_messages_controller x.validated_dto
  control resets_unread req x = reset_unread_controller x x.validated_dto
  control signs_in_admin req x = admin_sign_in_controller req x.validated_dto
  control creates_admin req x = create_admin_controller x.validated_dto
  control restores_login_key req x = restore_login_key_controller req x.validated_dto
  control deletes_user req x = delete_user_controller x.validated_dto
  control deletes_admin req x = delete_admin_controller x.validated_dto
  control lists_admins req x = list_admins_controller x.validated_dto
  control lists_users req x = list_users_controller x.validated_dto
  control lists_user_conversations req x = list_user_conversations_controller x.validated_dto
  control lists_conversation_messages req x = list_conversation_messages_controller x.validated_dto
  control updates_password req x = update_password_controller x x.validated_dto
  control subscribes_web req x = subscribe_web_controller x x.validated_dto
  control unsubscribes_web req x = unsubscribe_web_controller x.validated_dto

module _ ⦃o : Orm⦄ ⦃t : Tokens⦄ ⦃k : Packages⦄ ⦃r : R2⦄ ⦃e : Cipher⦄ ⦃z : Zod⦄ where
  abbrev pub conclude : Controller → Incoming → Passage × Store → Answer × Store
  conclude c req (p, s) = elim p.next [
    | none ↦ answered p.res (control c req p.res s)
    | some x ↦ (handle_error x p.res, s)
  ]

  unfoldable pub serve_route : Route → Incoming → Store → Answer × Store
  unfolding chain control
  serve_route q req s = conclude q.controller req (chain q.middlewares req fresh s)

  -- The first route with the method and the path; `none` is express's own answer.
  unfoldable pub first_route : List Route → Incoming → Store → Option Answer × Store
  unfolding serve_route
  first_route [] req s = (none, s)
  first_route (q ∷ qs) req s = elim (same_text q.method req.method && same_text q.path req.path) [
    | Bool.true ↦ let (a, s1) = serve_route q req s in (some a, s1)
    | Bool.false ↦ first_route qs req s
  ]

  unfoldable pub serve : Incoming → Store → Option Answer × Store
  unfolding first_route router
  serve req s = first_route router req s
