-- ===== src/Tokens.antt =====
-- The packages behind the authentication, as parameters: jsonwebtoken, node's crypto, bcrypt and
-- date-fns, and the values of src/config/environment.ts that they are called with.
use messinger_backend.Prelude.{ℕ, Bool, List, String}
use messinger_backend.Types.{Uuid, Date, UserRole}

-- The payload of a token.
pub record Claims : Type 0 where
  pub sub : Uuid
  pub roles : List UserRole
  pub sid : Uuid

-- `env.JWT_SECRET` and `env.JWT_REFRESH_SECRET`, each with its `expiresIn`.
pub data Secret : Type 0 where
  jwt_secret jwt_refresh_secret : Secret

-- `jwt.verify`: the payload, a `TokenExpiredError`, or another error.
pub data Verdict : Type 0 where
  verified : Claims → Verdict
  token_expired token_invalid : Verdict

pub record Tokens : Type 0 where
  -- `jwt.sign(claims, secret, { expiresIn })` at a time.
  pub sign : Secret → Claims → Date → ℕ
  -- `jwt.verify(token, secret)` at a time.
  pub verify : Secret → ℕ → Date → Verdict
  -- `createHash('sha256').update(token).digest('hex')`
  pub sha256 : ℕ → ℕ
  -- `add(date, parseExpiry(env.JWT_REFRESH_EXPIRES_IN))`
  pub add_refresh_expiry : Date → Date
  -- `differenceInMilliseconds(later, earlier)`; a negative one is 0, which the code's comparison
  -- with a positive bound does not tell apart.
  pub difference_in_milliseconds : Date → Date → ℕ
  -- `createHmac('sha256', secret).update(loginKey.trim().toUpperCase()).digest('hex')`
  pub login_key_lookup : String → ℕ
  -- `bcrypt.hash` and `bcrypt.compare`
  pub bcrypt_hash : String → ℕ
  pub bcrypt_compare : String → ℕ → Bool
