-- ===== src/Storage/Batches.antt =====
-- The deletion of files in batches.
use messinger_backend.Prelude.{
  ℕ, zero, suc, ◌+◌, ◌≤◌, ◌≡◌, refl, false, List, [], ◌∷◌, arith, take, drop, length, ltb, includes,
  ◌==◌, take-append-drop, length-take, Bool-cases, inl, inr, Option-cases,
}
use messinger_backend.Prelude.Rows.{any-append}
use messinger_backend.Exceptions.{ok, IsOk, Result-cases}
use messinger_backend.R2.{R2, IsR2, IsThorough, IsUp, without, delete_limit}
use messinger_backend.Store.{Store}
use messinger_backend.Storage.{delete_batch, delete_from, delete_files, max_keys_per_batch}
use messinger_backend.Storage.Slices.{
  length-drop, without-nil, length-zero, left_from, left_from-end, left_from-next, length-drop_lt,
}

module _ ⦃r : R2⦄ where
  -- One request, of at most as many keys as it may name.
  delete_batch_lem :
      (up : IsUp r) (n : ℕ) (xs : List ℕ) (s : Store)
      → n ≤ delete_limit
      → delete_batch (take n xs) s ≡ (ok tt, record s { bucket = without (take n xs) s.bucket })
  unfolding delete_batch
  delete_batch_lem up n xs s h =
      ground (arith, up.delete_objects_up (take n xs) s.bucket, length-take n xs)

  delete_from_lem :
      (up : IsUp r) (fuel i : ℕ) (keys : List ℕ) (s : Store)
      → length (drop i keys) ≤ fuel
      → delete_from fuel i keys s ≡ (ok tt, left_from i keys s)
  unfolding delete_from
  delete_from_lem up zero i keys s h =
      ground (arith, left_from-end i keys s (length-zero (drop i keys) (omega arith)))
  delete_from_lem up (suc fuel) i keys s h = elim (Bool-cases (ltb i (length keys))) [
    | inl more ↦
        let s' : Store = record s {
          bucket = without (take max_keys_per_batch (drop i keys)) s.bucket;
        } in
        ground (
          arith,
          delete_batch_lem up max_keys_per_batch (drop i keys) s (omega arith),
          delete_from_lem up fuel (i + max_keys_per_batch) keys s'
              (length-drop_lt 999 fuel i keys more h),
          left_from-next max_keys_per_batch i keys s,
        )
    | inr done ↦ ground (
      arith,
      left_from-end i keys s (length-zero (drop i keys) (ground (arith, length-drop i keys))),
    )
  ]

  -- While the bucket accepts every request that names no more keys than its limit, deleting any
  -- number of keys ends without an error, exactly the given keys are gone from the bucket, and
  -- nothing else changes.
  pub delete_files_lem :
      (up : IsUp r) (keys : List ℕ) (s : Store)
      → delete_files keys s ≡ (ok tt, record s { bucket = without keys s.bucket })
  unfolding delete_files
  delete_files_lem up [] s = ground (arith, without-nil s.bucket)
  delete_files_lem up (key ∷ keys) s =
      delete_from_lem up (length (key ∷ keys)) 0 (key ∷ keys) s (omega arith)

  -- A key that a request does not name is not touched by it.
  delete_batch-keeps :
      (l : IsR2 r) (xs : List ℕ) (key : ℕ) (s : Store)
      → includes xs key ≡ false
      → includes (delete_batch xs s).1.bucket key ≡ includes s.bucket key
  unfolding delete_batch
  delete_batch-keeps l xs key s h = elim (Option-cases (r.delete_objects xs s.bucket)) [
    | inl e ↦ ground arith
    | inr (left, e) ↦ ground (arith, l.delete_objects_lem xs s.bucket left key e h)
  ]

  includes-slice :
      (n i : ℕ) (keys : List ℕ) (key : ℕ)
      → includes keys key ≡ false
      → includes (take n (drop i keys)) key ≡ false
  includes-slice n i keys key h = ground (
    arith,
    any-append (λ x. x == key) (take i keys) (drop i keys),
    take-append-drop i keys,
    any-append (λ x. x == key) (take n (drop i keys)) (drop n (drop i keys)),
    take-append-drop n (drop i keys),
  )

  delete_from-keeps :
      (l : IsR2 r) (fuel i : ℕ) (keys : List ℕ) (key : ℕ) (s : Store)
      → includes keys key ≡ false
      → includes (delete_from fuel i keys s).1.bucket key ≡ includes s.bucket key
  unfolding delete_from
  delete_from-keeps l zero i keys key s h = refl
  delete_from-keeps l (suc fuel) i keys key s h =
      let batch : List ℕ = take max_keys_per_batch (drop i keys) in
      ground (
        arith,
        delete_batch-keeps l batch key s (includes-slice max_keys_per_batch i keys key h),
        delete_from-keeps l fuel (i + max_keys_per_batch) keys key (delete_batch batch s).1 h,
      )

  -- Whether or not the bucket refuses some request on the way, a key that was not given stays in the
  -- bucket if it was there, and none appears.
  pub delete_files-keeps :
      (l : IsR2 r) (keys : List ℕ) (key : ℕ) (s : Store)
      → includes keys key ≡ false
      → includes (delete_files keys s).1.bucket key ≡ includes s.bucket key
  unfolding delete_files
  delete_files-keeps l [] key s h = refl
  delete_files-keeps l (k ∷ keys) key s h =
      delete_from-keeps l (length (k ∷ keys)) 0 (k ∷ keys) key s h

  delete_batch-ok :
      (l : IsThorough r) (xs : List ℕ) (s : Store)
      → IsOk (delete_batch xs s).0
      → delete_batch xs s ≡ (ok tt, record s { bucket = without xs s.bucket })
  unfolding delete_batch
  delete_batch-ok l xs s h = elim (Option-cases (r.delete_objects xs s.bucket)) [
    | inl e ↦ absurd (ground arith)
    | inr (left, e) ↦ ground (arith, l.delete_objects_thorough xs s.bucket left e)
  ]

  delete_from-ok :
      (l : IsThorough r) (fuel i : ℕ) (keys : List ℕ) (s : Store)
      → length (drop i keys) ≤ fuel
      → IsOk (delete_from fuel i keys s).0
      → delete_from fuel i keys s ≡ (ok tt, left_from i keys s)
  unfolding delete_from
  delete_from-ok l zero i keys s h f =
      ground (arith, left_from-end i keys s (length-zero (drop i keys) (omega arith)))
  delete_from-ok l (suc fuel) i keys s h f = elim (Bool-cases (ltb i (length keys))) [
    | inr done ↦ ground (
      arith,
      left_from-end i keys s (length-zero (drop i keys) (ground (arith, length-drop i keys))),
    )
    | inl more ↦
        let batch : List ℕ = take max_keys_per_batch (drop i keys) in
        elim (Result-cases (delete_batch batch s).0) [
          | inr (x, failed) ↦ absurd (ground arith)
          | inl (u, sent) ↦
              let one = delete_batch-ok l batch s (rw sent tt) in
              ground (
                arith,
                one,
                delete_from-ok l fuel (i + max_keys_per_batch) keys
                    (record s { bucket = without batch s.bucket })
                    (length-drop_lt 999 fuel i keys more h),
                left_from-next max_keys_per_batch i keys s,
              )
        ]
  ]

  -- A deletion that is fulfilled has sent every batch; if no answer lists errors, the keys are gone.
  pub delete_files-ok :
      (l : IsThorough r) (keys : List ℕ) (s : Store)
      → IsOk (delete_files keys s).0
      → delete_files keys s ≡ (ok tt, record s { bucket = without keys s.bucket })
  unfolding delete_files
  delete_files-ok l [] s h = ground (arith, without-nil s.bucket)
  delete_files-ok l (key ∷ keys) s h =
      delete_from-ok l (length (key ∷ keys)) 0 (key ∷ keys) s (omega arith) h

  delete_batch-frame :
      (xs : List ℕ) (s : Store)
      → (delete_batch xs s).1 ≡ record s { bucket = (delete_batch xs s).1.bucket }
  unfolding delete_batch
  delete_batch-frame xs s = elim (Option-cases (r.delete_objects xs s.bucket)) [
    | inl e ↦ ground arith
    | inr (left, e) ↦ ground arith
  ]

  delete_from-frame :
      (fuel i : ℕ) (keys : List ℕ) (s : Store)
      → (delete_from fuel i keys s).1 ≡ record s { bucket = (delete_from fuel i keys s).1.bucket }
  unfolding delete_from
  delete_from-frame zero i keys s = refl
  delete_from-frame (suc fuel) i keys s =
      let batch : List ℕ = take max_keys_per_batch (drop i keys) in
      elim (Bool-cases (ltb i (length keys))) [
        | inr done ↦ ground arith
        | inl more ↦ elim (Result-cases (delete_batch batch s).0) [
          | inr (x, failed) ↦ ground (arith, delete_batch-frame batch s)
          | inl (u, sent) ↦ ground (
            arith,
            delete_batch-frame batch s,
            delete_from-frame fuel (i + max_keys_per_batch) keys (delete_batch batch s).1,
          )
        ]
      ]

  -- Only the bucket changes.
  pub delete_files-frame :
      (keys : List ℕ) (s : Store)
      → (delete_files keys s).1 ≡ record s { bucket = (delete_files keys s).1.bucket }
  unfolding delete_files
  delete_files-frame [] s = refl
  delete_files-frame (key ∷ keys) s = delete_from-frame (length (key ∷ keys)) 0 (key ∷ keys) s
