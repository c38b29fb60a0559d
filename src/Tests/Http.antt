-- ===== src/Tests/Http.antt =====
-- Requests to the routes, on the small database.
use messinger_backend.Prelude.{ℕ, ◌≡◌, refl, none, some, Option, String, Any, inl, inr}
use messinger_backend.Exceptions.{http_code, unauthorized}
use messinger_backend.Orm.{first_orm, first_orm-IsOrm}
use messinger_backend.Cipher.{plain_cipher}
use messinger_backend.Packages.{plain_packages}
use messinger_backend.R2.{plain_r2}
use messinger_backend.Auth.Authorization.{authorize}
use messinger_backend.Auth.Middleware.{Response, authenticate, refuses, cleared}
use messinger_backend.Http.Exchange.{Schema, delete_conversation_schema, Dto, conversation_dto, Zod}
use messinger_backend.Http.Requests.{Incoming, absent, credentials}
use messinger_backend.Http.Middlewares.{chain}
use messinger_backend.Http.Routes.{Route, router, route, for_users, deletes_group}
use messinger_backend.Http.Serving.{serve_route}
use messinger_backend.Http.Guarded.{Reached, router-Reached}
use messinger_backend.Http.Refused.{router_refused}
use messinger_backend.Tests.Data.{store, plain_tokens}

-- The group 1 is named by every payload.
abbrev plain_parse : Schema → String → Option Dto
plain_parse delete_conversation_schema payload = some (conversation_dto 1)
plain_parse _ payload = none

abbrev plain_zod : Zod
plain_zod = record { parse = plain_parse }

abbrev delete_group_route : Route
delete_group_route =
    route "DELETE" "/conversation/delete-group" (for_users delete_conversation_schema) deletes_group

abbrev request : Option ℕ → Incoming
request token = record {
  method = "DELETE";
  path = "/conversation/delete-group";
  access_cookie = token;
  refresh_cookie = none;
  authorization = none;
  refresh_header = absent;
  agent_header = none;
  forwarded_for = none;
  remote_address = none;
  payload = "1";
  new_user_code = "";
  new_login_key = "";
}

delete_group_route-in_router : Any (λ p. p ≡ delete_group_route) router
unfolding router
delete_group_route-in_router =
    inr
      (inr (inr (inr (inr (inr (inr (inr (inr (inr (inr (inr (inr (inr (inr (inl refl)))))))))))))))

-- A request of the user 10 with an access token that is verified.
router-Reached_example :
    Reached ⦃o = first_orm⦄ ⦃t = plain_tokens⦄ ⦃z = plain_zod⦄ delete_group_route.middlewares
      (request (some 1000))
      store
unfolding chain authenticate router authorize
router-Reached_example =
    router-Reached ⦃o = first_orm⦄ ⦃t = plain_tokens⦄ ⦃z = plain_zod⦄ first_orm-IsOrm
      delete_group_route (request (some 1000)) store delete_group_route-in_router refl refl

-- A forged access token.
abbrev refusal : Response
refusal = refuses cleared "INVALID_ACCESS_TOKEN"

router_refused_example :
    ((serve_route ⦃o = first_orm⦄ ⦃t = plain_tokens⦄ ⦃k = plain_packages⦄ ⦃r = plain_r2⦄
        ⦃e = plain_cipher⦄ ⦃z = plain_zod⦄ delete_group_route
        (request (some 6))
        store).0.status
      ≡ http_code (unauthorized "INVALID_ACCESS_TOKEN"))
    × ((serve_route ⦃o = first_orm⦄ ⦃t = plain_tokens⦄ ⦃k = plain_packages⦄ ⦃r = plain_r2⦄
          ⦃e = plain_cipher⦄ ⦃z = plain_zod⦄ delete_group_route
          (request (some 6))
          store).0.cookies
        ≡ cleared)
    × ((serve_route ⦃o = first_orm⦄ ⦃t = plain_tokens⦄ ⦃k = plain_packages⦄ ⦃r = plain_r2⦄
          ⦃e = plain_cipher⦄ ⦃z = plain_zod⦄ delete_group_route
          (request (some 6))
          store).1
        ≡ store)
unfolding authenticate credentials
router_refused_example =
    router_refused ⦃o = first_orm⦄ ⦃t = plain_tokens⦄ ⦃k = plain_packages⦄ ⦃r = plain_r2⦄
      ⦃e = plain_cipher⦄ ⦃z = plain_zod⦄ delete_group_route (request (some 6)) store store refusal
      (unauthorized "INVALID_ACCESS_TOKEN") delete_group_route-in_router refl refl refl
