-- ===== src/Http/Refused.antt =====
-- What a request that is refused gets, and what it leaves.
use messinger_backend.Prelude.{
  Bool, true, false, ◌||◌, ◌≡◌, refl, Option, none, some, List, [], ◌∷◌, Any, arith, Option-cases,
  inl, inr, ap, ◌∙◌,
}
use messinger_backend.Prelude.Rows.{all, all_of_Any}
use messinger_backend.Exceptions.{Exception, http_code, type_error, ok}
use messinger_backend.Orm.{Orm}
use messinger_backend.Cipher.{Cipher}
use messinger_backend.Packages.{Packages}
use messinger_backend.R2.{R2}
use messinger_backend.Tokens.{Tokens}
use messinger_backend.Store.{Store}
use messinger_backend.Auth.Middleware.{Response, authenticate}
use messinger_backend.Http.Exchange.{Zod, Exchange}
use messinger_backend.Http.Requests.{Incoming, credentials}
use messinger_backend.Http.Middlewares.{
  Middleware, authenticates, authorizes, validates, fresh, step, chain, written, authorize_locals,
  authenticated, go_on, Passage,
}
use messinger_backend.Http.Routes.{Controller, Route, router, leaves_group}
use messinger_backend.Http.Serving.{handle_error, serve_route, serve, first_route}
use messinger_backend.Http.Guarded.{is_public, is_guarded}

abbrev pub is_leaving : Controller → Bool
is_leaving leaves_group = true
is_leaving _ = false

-- The first middleware of every other route asks for a token.
abbrev is_asking : Route → Bool
is_asking q = is_public q.controller || is_leaving q.controller || is_guarded q.middlewares

router-is_asking : all is_asking router ≡ true
unfolding router
router-is_asking = refl

written-cookies : (resp : Response) → (written resp fresh).cookies ≡ resp.cookies
written-cookies resp = elim (Option-cases resp.locals) [
  | inl missing ↦ ground arith
  | inr (l, found) ↦ ground arith
]

module _ ⦃o : Orm⦄ ⦃t : Tokens⦄ ⦃k : Packages⦄ ⦃r : R2⦄ ⦃e : Cipher⦄ ⦃z : Zod⦄ where
  stopped :
      (rest : Exchange → Store → Passage × Store) (n : Option Exception) (y : Exchange) (s : Store)
      (x : Exception)
      → n ≡ some x
      → go_on rest (record { next = n; res = y }, s) ≡ (record { next = some x; res = y }, s)
  stopped rest none y s x h = absurd (ground arith)
  stopped rest (some w) y s x h = ap (λ m. (record { next = m; res = y }, s)) h

  chain_refused :
      (ms : List Middleware) (req : Incoming) (s s1 : Store) (resp : Response) (x : Exception)
      → is_guarded ms ≡ true
      → authenticate (credentials req) s ≡ (ok resp, s1)
      → resp.next ≡ some x
      → chain ms req fresh s ≡ (record { next = some x; res = written resp fresh }, s1)
  unfolding chain step
  chain_refused [] req s s1 resp x g a n = absurd (ground arith)
  chain_refused (authorizes allowed ∷ ms) req s s1 resp x g a n = absurd (ground arith)
  chain_refused (validates schema ∷ ms) req s s1 resp x g a n = absurd (ground arith)
  chain_refused (authenticates ∷ ms) req s s1 resp x g a n =
      ap (λ r. go_on (chain ms req) (authenticated fresh r)) a
      ∙ stopped (chain ms req) resp.next (written resp fresh) s1 x n

  -- When the authentication refuses a request, every route of the router but the three sign-ins, the
  -- sign-up and `/conversation/leave-group` answers with the status of that refusal, sends the
  -- cookies that the authentication has set or cleared, and leaves the store as the authentication
  -- left it: no controller runs.
  pub router_refused :
      (q : Route) (req : Incoming) (s s1 : Store) (resp : Response) (x : Exception)
      → Any (λ p. p ≡ q) router
      → (is_public q.controller || is_leaving q.controller) ≡ false
      → authenticate (credentials req) s ≡ (ok resp, s1)
      → resp.next ≡ some x
      → ((serve_route q req s).0.status ≡ http_code x)
        × ((serve_route q req s).0.cookies ≡ resp.cookies)
        × ((serve_route q req s).1 ≡ s1)
  unfolding serve_route handle_error
  router_refused q req s s1 resp x h private a n =
      let asking : is_asking q ≡ true = all_of_Any is_asking router q h router-is_asking in
      let refused : chain q.middlewares req fresh s
          ≡ (record { next = some x; res = written resp fresh }, s1) =
        chain_refused q.middlewares req s s1 resp x (ground arith) a n in
      rw refused (refl, written-cookies resp, refl)

  -- A request to leave a group is answered with the status 500 and changes nothing, whoever makes it
  -- and whatever the payload is.
  pub leave_group_fails :
      (req : Incoming) (s : Store)
      → serve (record req { method = "POST"; path = "/conversation/leave-group" }) s
        ≡ (some (handle_error type_error fresh), s)
  unfolding serve first_route serve_route router chain step authorize_locals
  leave_group_fails req s = refl
