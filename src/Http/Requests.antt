-- ===== src/Http/Requests.antt =====
-- What the code reads of a request: src/utils/auth.ts.
use messinger_backend.Prelude.{
  ℕ, Bool, Option, none, some, List, [], ◌∷◌, String, same_text, if◌then◌else◌,
}
use messinger_backend.Auth.Middleware.{Request}

-- A header of node's http: one text, or a list of texts if it may be repeated.
pub data Header : Type 0 where
  absent : Header
  single : ℕ → Header
  repeated : List ℕ → Header

-- `authorization`: the parts that `split(' ')` gives, the first in lower case and an empty second one
-- none, and whether `/^Bearer\s+/i` matches.
pub record AuthorizationHeader : Type 0 where
  pub scheme : String
  pub token : Option ℕ
  pub is_bearer : Bool

-- An empty cookie is none.
pub record Incoming : Type 0 where
  pub method : String
  pub path : String
  pub access_cookie : Option ℕ
  pub refresh_cookie : Option ℕ
  pub authorization : Option AuthorizationHeader
  pub refresh_header : Header
  pub agent_header : Option String
  -- The first entry of `x-forwarded-for`, trimmed.
  pub forwarded_for : Option String
  pub remote_address : Option String
  -- The body, the query and the parameters.
  pub payload : String
  -- What `generateRandomString` gives while the request is served.
  pub new_user_code : String
  pub new_login_key : String

unfoldable pub get_access_token : Incoming → Option ℕ
get_access_token req = elim req.access_cookie [
  | some token ↦ some token
  | none ↦ elim req.authorization [
    | none ↦ none
    | some a ↦ if same_text a.scheme "bearer" then a.token else none
  ]
]

abbrev pub first_token : List ℕ → Option ℕ
first_token [] = none
first_token (t ∷ ts) = some t

abbrev pub header_token : Header → Option ℕ
header_token absent = none
header_token (single t) = some t
header_token (repeated ts) = first_token ts

unfoldable pub get_refresh_token : Incoming → Option ℕ
get_refresh_token req = elim req.refresh_cookie [
  | some token ↦ some token
  | none ↦ header_token req.refresh_header
]

-- `typeof authorization === 'string' && /^Bearer\s+/i.test(authorization)`
abbrev pub has_bearer_scheme : Incoming → Bool
has_bearer_scheme req = elim req.authorization [ none ↦ Bool.false | some a ↦ a.is_bearer ]

-- What `authenticate` reads.
unfoldable pub credentials : Incoming → Request
unfolding get_access_token get_refresh_token
credentials req = record {
  access_token = get_access_token req;
  refresh_token = get_refresh_token req;
  is_bearer_client = has_bearer_scheme req;
}

-- `getClientInfo`
abbrev pub user_agent_of : Incoming → String
user_agent_of req = elim req.agent_header [ none ↦ "unknown" | some agent ↦ agent ]

abbrev pub ip_address_of : Incoming → Option String
ip_address_of req = elim req.forwarded_for [
  | none ↦ req.remote_address
  | some address ↦ some address
]

-- The token that `logout` reads: the cookie, or the header if it is one text.
abbrev pub logout_token : Incoming → Option ℕ
logout_token req = elim req.refresh_cookie [
  | some token ↦ some token
  | none ↦ elim req.refresh_header [ absent ↦ none | single t ↦ some t | repeated ts ↦ none ]
]
