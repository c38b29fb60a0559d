-- ===== src/Http/Guarded.antt =====
-- Which requests reach a controller.
use messinger_backend.Prelude.{
  Bool, true, false, not, ◌||◌, ◌≡◌, ◌⊎◌, refl, none, some, List, [], ◌∷◌, Any, arith, Option-cases,
  Bool-cases, inl, inr,
}
use messinger_backend.Prelude.Rows.{all, all_of_Any}
use messinger_backend.Types.{Uuid, UserRole}
use messinger_backend.Exceptions.{type_error, Result-cases}
use messinger_backend.Orm.{Orm, IsOrm}
use messinger_backend.Tokens.{Tokens}
use messinger_backend.Store.{Store}
use messinger_backend.Auth.Authorization.{is_permitted, authorize, authorize_iff}
use messinger_backend.Auth.Middleware.{authenticate}
use messinger_backend.Auth.Access.{Granted, Live, authenticate_passes}
use messinger_backend.Http.Exchange.{Zod, Exchange}
use messinger_backend.Http.Requests.{Incoming, credentials}
use messinger_backend.Http.Middlewares.{
  Middleware, authenticates, authorizes, validates, fresh, authorize_locals, validate_dto, step,
  chain, written,
}
use messinger_backend.Http.Routes.{
  Controller, Route, router, signs_in, signs_in_mobile, signs_up, signs_in_admin,
}

-- The controllers of which no token is asked.
abbrev pub is_public : Controller → Bool
is_public signs_in = true
is_public signs_in_mobile = true
is_public signs_up = true
is_public signs_in_admin = true
is_public _ = false

abbrev is_authentication : Middleware → Bool
is_authentication authenticates = true
is_authentication _ = false

-- The first middleware authenticates, and no other does.
abbrev pub is_guarded : List Middleware → Bool
is_guarded (authenticates ∷ ms) = all (λ m. not (is_authentication m)) ms
is_guarded _ = false

-- The first middleware asks for the roles that nobody has written yet.
abbrev is_blocked : List Middleware → Bool
is_blocked (authorizes allowed ∷ ms) = true
is_blocked _ = false

-- What the middleware asks of the roles.
abbrev pub permits : List UserRole → Middleware → Bool
permits roles authenticates = true
permits roles (authorizes allowed) = is_permitted allowed roles
permits roles (validates schema) = true

module _ ⦃o : Orm⦄ ⦃t : Tokens⦄ ⦃z : Zod⦄ where
  -- The middlewares behind the authentication leave the store, the user and the roles as they are.
  abbrev Kept : List UserRole → List Middleware → Incoming → Exchange → Store → Type 0
  Kept roles ms req x s =
      ((chain ms req x s).1 ≡ s)
      × ((chain ms req x s).0.res.user_id ≡ x.user_id)
      × ((chain ms req x s).0.res.roles ≡ x.roles)
      × (all (permits roles) ms ≡ true)

  chain_keeps :
      (ms : List Middleware) (req : Incoming) (x : Exchange) (s : Store) (roles : List UserRole)
      → all (λ m. not (is_authentication m)) ms ≡ true
      → x.roles ≡ some roles
      → (chain ms req x s).0.next ≡ none
      → Kept roles ms req x s
  unfolding chain step authorize_locals validate_dto
  chain_keeps [] req x s roles g r h = (refl, refl, refl, refl)
  chain_keeps (authenticates ∷ ms) req x s roles g r h = absurd (ground arith)
  chain_keeps (authorizes allowed ∷ ms) req x s roles g r h =
      elim (Option-cases (authorize allowed roles)) [
        | inl passed ↦
            let (store, user, held, allow) = chain_keeps ms req x s roles g r (ground arith) in
            (ground arith, ground arith, ground arith, ground (arith, authorize_iff allowed roles))
        | inr (e, refused) ↦ absurd (ground arith)
      ]
  chain_keeps (validates schema ∷ ms) req x s roles g r h =
      elim (Option-cases (z.parse schema req.payload)) [
        | inl refused ↦ absurd (ground arith)
        | inr (dto, parsed) ↦
            let (store, user, held, allow) =
              chain_keeps ms req (record x { validated_dto = some dto }) s roles g r
                (ground arith) in
            (ground arith, ground arith, ground arith, ground arith)
      ]

  -- Why a request got through the middlewares, and with what.
  abbrev pub Reached : List Middleware → Incoming → Store → Type 0
  Reached ms req s =
      (u : Uuid) × (roles : List UserRole) × (Granted (credentials req) s u roles
        ⊎ Live (credentials req) s u roles)
      × ((chain ms req fresh s).1 ≡ (authenticate (credentials req) s).1)
      × ((chain ms req fresh s).0.res.user_id ≡ some u)
      × ((chain ms req fresh s).0.res.roles ≡ some roles)
      × (all (permits roles) ms ≡ true)

  guarded-Reached :
      (l : IsOrm o) (ms : List Middleware) (req : Incoming) (s : Store)
      → is_guarded ms ≡ true
      → (chain ms req fresh s).0.next ≡ none
      → Reached ms req s
  unfolding chain step
  guarded-Reached l [] req s g h = absurd (ground arith)
  guarded-Reached l (authorizes allowed ∷ ms) req s g h = absurd (ground arith)
  guarded-Reached l (validates schema ∷ ms) req s g h = absurd (ground arith)
  guarded-Reached l (authenticates ∷ ms) req s g h =
      let s1 : Store = (authenticate (credentials req) s).1 in
      elim (Result-cases (authenticate (credentials req) s).0) [
        | inr (e, failed) ↦ absurd (ground arith)
        | inl (resp, done) ↦ elim (Option-cases resp.next) [
          | inr (e, refused) ↦ absurd (ground arith)
          | inl passed ↦
              let (u, roles, locals, why) =
                authenticate_passes l (credentials req) s resp done passed in
              let (store, user, held, allow) =
                chain_keeps ms req (written resp fresh) s1 roles g (ground arith) (ground arith) in
              (u, roles, why, ground arith, ground arith, ground arith, allow)
        ]
      ]

  blocked_reached :
      (ms : List Middleware) (req : Incoming) (s : Store)
      → is_blocked ms ≡ true
      → (chain ms req fresh s).0.next ≡ some type_error
  unfolding chain step authorize_locals
  blocked_reached [] req s g = absurd (ground arith)
  blocked_reached (authenticates ∷ ms) req s g = absurd (ground arith)
  blocked_reached (authorizes allowed ∷ ms) req s g = refl
  blocked_reached (validates schema ∷ ms) req s g = absurd (ground arith)

-- Every route is public, asks for a token first, or can never be passed.
abbrev is_covered : Route → Bool
is_covered q = is_public q.controller || is_guarded q.middlewares || is_blocked q.middlewares

router-is_covered : all is_covered router ≡ true
unfolding router
router-is_covered = refl

module _ ⦃o : Orm⦄ ⦃t : Tokens⦄ ⦃z : Zod⦄ where
  -- The controller of a route is called only after the middlewares have passed the request on. For a
  -- route of the router whose controller is not one of the three sign-ins or the sign-up, that takes
  -- a verified access token, or a verified refresh token of a stored session that is neither revoked
  -- nor expired; the controller then sees the user and the roles of that token, every role check of
  -- the route has one of them among its allowed roles, and the store is as the authentication left
  -- it.
  pub router-Reached :
      (l : IsOrm o) (q : Route) (req : Incoming) (s : Store)
      → Any (λ p. p ≡ q) router
      → is_public q.controller ≡ false
      → (chain q.middlewares req fresh s).0.next ≡ none
      → Reached q.middlewares req s
  router-Reached l q req s h private passed =
      let covered : is_covered q ≡ true = all_of_Any is_covered router q h router-is_covered in
      elim (Bool-cases (is_guarded q.middlewares)) [
        | inl guarded ↦ guarded-Reached l q.middlewares req s guarded passed
        | inr unguarded ↦
            absurd (ground (arith, blocked_reached q.middlewares req s (ground arith)))
      ]
