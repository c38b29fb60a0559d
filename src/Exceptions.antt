-- ===== src/Exceptions.antt =====
-- The exceptions of src/exceptions: what a rejected promise carries.
use messinger_backend.Prelude.{ℕ, String, ◌≡◌, ◌⊎◌, inl, inr, refl}

-- `BaseException` and its subclasses; `query_failed` is the error of the database
-- driver, `request_failed` that of the client of the R2 bucket, and `decipher_failed` that of node's
-- crypto; `type_error` is any other `Error`, of the
-- code itself or of a package that is given what it does not take.
pub data Exception : Type 0 where
  bad_request unauthorized forbidden not_found conflict validation : String → Exception
  query_failed request_failed decipher_failed type_error : Exception

-- The status of the HTTP response: `httpCode`.
pub http_code : Exception → ℕ
http_code (bad_request _) = 400
http_code (unauthorized _) = 401
http_code (forbidden _) = 403
http_code (not_found _) = 404
http_code (conflict _) = 409
http_code (validation _) = 422
http_code query_failed = 500
http_code request_failed = 500
http_code decipher_failed = 500
http_code type_error = 500

pub data Result (A : Type 0) : Type 0 where
  ok : A → Result A
  err : Exception → Result A

-- The promise is fulfilled.
abbrev pub IsOk : {A : Type 0} → Result A → Type 0
IsOk (ok a) = Unit
IsOk (err e) = ⊥

-- To split on a computed result and keep the equation.
pub Result-cases :
    {A : Type 0} (r : Result A) → ((a : A) × (r ≡ ok a)) ⊎ ((e : Exception) × (r ≡ err e))
Result-cases (ok a) = inl (a, refl)
Result-cases (err e) = inr (e, refl)
