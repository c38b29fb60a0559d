-- ===== src/R2.antt =====
-- The client of the R2 bucket (@aws-sdk/client-s3 and its presigner), a parameter. A key is a number.
use messinger_backend.Prelude.{
  ℕ, ◌≡◌, ◌<◌, Bool, false, not, Option, none, some, List, String, includes, filter, length, ltb,
  if◌then◌else◌, arith, ◌&&◌, [], ◌∷◌,
}
use messinger_backend.Prelude.Rows.{includes-eq}
use messinger_backend.Types.{Uuid}

pub record R2 : Type 0 where
  -- `users/${userId}/attachments/${uuid}.bin`
  pub storage_key : Uuid → Uuid → ℕ
  -- `getSignedUrl` of a `PutObjectCommand`, by the key and the content type.
  pub presign_put : ℕ → String → ℕ
  -- `getSignedUrl` of a `GetObjectCommand`, by the key, the content type and the file's name.
  pub presign_get : ℕ → String → String → ℕ
  -- `HeadObjectCommand`: whether the key is there, or `none` on an error other than "not found".
  pub head_object : ℕ → List ℕ → Option Bool
  -- `DeleteObjectsCommand`: the keys that are left in the bucket, or `none` if it is refused. A request
  -- that is answered may leave some of the keys it names: the answer lists them under `Errors`.
  pub delete_objects : List ℕ → List ℕ → Option (List ℕ)

-- What is left of the keys in the bucket.
abbrev pub without : List ℕ → List ℕ → List ℕ
without keys = filter (λ key. not (includes keys key))

-- The most keys that one `DeleteObjectsCommand` may name.
abbrev pub delete_limit : ℕ
delete_limit = 1000

pub record IsR2 (r : R2) : Type 0 where
  pub head_object_lem :
      (key : ℕ) (bucket : List ℕ) (found : Bool)
      → r.head_object key bucket ≡ some found
      → found ≡ includes bucket key
  -- A request leaves the keys alone that it does not name.
  pub delete_objects_lem :
      (keys bucket left : List ℕ) (key : ℕ)
      → r.delete_objects keys bucket ≡ some left
      → includes keys key ≡ false
      → includes left key ≡ includes bucket key
  pub delete_objects_limit :
      (keys bucket : List ℕ) → delete_limit < length keys → r.delete_objects keys bucket ≡ none

-- An answered request has deleted every key that it names: its answer lists no `Errors`.
pub record IsThorough (r : R2) : Type 0 where
  pub delete_objects_thorough :
      (keys bucket left : List ℕ)
      → r.delete_objects keys bucket ≡ some left
      → left ≡ without keys bucket

-- No request within the limit is refused, and none leaves a key that it names.
pub record IsUp (r : R2) : Type 0 where
  pub delete_objects_up :
      (keys bucket : List ℕ)
      → ltb delete_limit (length keys) ≡ false
      → r.delete_objects keys bucket ≡ some (without keys bucket)

pub includes-without :
    (xs bucket : List ℕ) (key : ℕ)
    → includes (without xs bucket) key ≡ (not (includes xs key) && includes bucket key)
includes-without xs [] key = ground arith
includes-without xs (x ∷ bucket) key =
    ground (arith, includes-eq x key xs, includes-without xs bucket key)

-- A bucket that behaves so.
abbrev pub plain_r2 : R2
plain_r2 = record {
  storage_key = λ user_id id. id;
  presign_put = λ key type. key;
  presign_get = λ key type name. key;
  head_object = λ key bucket. some (includes bucket key);
  delete_objects =
      λ keys bucket. if ltb delete_limit (length keys) then none else some (without keys bucket);
}

pub plain_r2-IsR2 : IsR2 plain_r2
plain_r2-IsR2 = record {
  head_object_lem = λ key bucket found e. ground arith;
  delete_objects_lem = λ keys bucket left key e h. ground (arith, includes-without keys bucket key);
  delete_objects_limit = λ keys bucket h. ground arith;
}

pub plain_r2-IsUp : IsUp plain_r2
plain_r2-IsUp = record { delete_objects_up = λ keys bucket h. ground arith }
