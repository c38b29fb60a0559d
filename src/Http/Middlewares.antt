-- ===== src/Http/Middlewares.antt =====
-- The middlewares of a route, one after the other (src/middlewares).
use messinger_backend.Prelude.{Option, none, some, List, [], ◌∷◌, String}
use messinger_backend.Types.{UserRole}
use messinger_backend.Exceptions.{Exception, validation, type_error, Result, ok, err}
use messinger_backend.Orm.{Orm}
use messinger_backend.Tokens.{Tokens}
use messinger_backend.Store.{Store}
use messinger_backend.Auth.Authorization.{authorize}
use messinger_backend.Auth.Middleware.{Response, kept, authenticate}
use messinger_backend.Http.Exchange.{Schema, Zod, Exchange}
use messinger_backend.Http.Requests.{Incoming, credentials}

-- `authenticate`, `authorize(…roles)` and `validateDTO(schema)`.
pub data Middleware : Type 0 where
  authenticates : Middleware
  authorizes : List UserRole → Middleware
  validates : Schema → Middleware

-- The argument of `next`, and what is in `res`.
pub record Passage : Type 0 where
  pub next : Option Exception
  pub res : Exchange

abbrev pub fresh : Exchange
fresh = record {
  cookies = kept;
  headers = none;
  user_id = none;
  roles = none;
  validated_dto = none;
}

-- What `authenticate` has written.
abbrev pub written : Response → Exchange → Exchange
written r x = elim r.locals [
  | none ↦ record x { cookies = r.cookies; headers = r.headers }
  | some l ↦ record x {
    cookies = r.cookies;
    headers = r.headers;
    user_id = some l.0;
    roles = some l.1;
  }
]

-- Reading `roles.length` where there are no roles throws, which express passes on.
unfoldable pub authorize_locals : List UserRole → Option (List UserRole) → Option Exception
authorize_locals allowed none = some type_error
authorize_locals allowed (some roles) = authorize allowed roles

module _ ⦃z : Zod⦄ where
  unfoldable pub validate_dto : Schema → String → Exchange → Passage
  validate_dto schema payload x = elim (z.parse schema payload) [
    | none ↦ record { next = some (validation "DTO validation error"); res = x }
    | some dto ↦ record { next = none; res = record x { validated_dto = some dto } }
  ]

-- A rejection of the middleware is passed on by express.
abbrev pub authenticated : Exchange → Result Response × Store → Passage × Store
authenticated x (ok r, s) = (record { next = r.next; res = written r x }, s)
authenticated x (err e, s) = (record { next = some e; res = x }, s)

module _ ⦃o : Orm⦄ ⦃t : Tokens⦄ ⦃z : Zod⦄ where
  unfoldable pub step : Middleware → Incoming → Exchange → Store → Passage × Store
  unfolding authenticate authorize_locals validate_dto credentials
  step authenticates req x s = authenticated x (authenticate (credentials req) s)
  step (authorizes allowed) req x s =
      (record { next = authorize_locals allowed x.roles; res = x }, s)
  step (validates schema) req x s = (validate_dto schema req.payload x, s)

  abbrev pub go_on : (Exchange → Store → Passage × Store) → Passage × Store → Passage × Store
  go_on rest (p, s) = elim p.next [ none ↦ rest p.res s | some e ↦ (p, s) ]

  -- The middlewares up to the first that passes an exception on.
  unfoldable pub chain : List Middleware → Incoming → Exchange → Store → Passage × Store
  unfolding step
  chain [] req x s = (record { next = none; res = x }, s)
  chain (m ∷ ms) req x s = go_on (chain ms req) (step m req x s)
