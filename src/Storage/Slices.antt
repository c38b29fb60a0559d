-- ===== src/Storage/Slices.antt =====
-- Slices of a list of keys, and the bucket without them.
use messinger_backend.Prelude.{
  ℕ, zero, suc, ◌+◌, ◌≤◌, ◌≡◌, refl, true, List, [], ◌∷◌, ◌++◌, arith, take, drop, length, ltb,
  ◌==◌, take-append-drop, length-take, length-append,
}
use messinger_backend.Prelude.Rows.{any-append}
use messinger_backend.R2.{without}
use messinger_backend.Store.{Store}

pub drop-nil : (n : ℕ) → drop {A = ℕ} n [] ≡ []
drop-nil zero = refl
drop-nil (suc n) = refl

pub drop-drop : (i n : ℕ) (xs : List ℕ) → drop (i + n) xs ≡ drop n (drop i xs)
drop-drop zero n xs = ground arith
drop-drop (suc i) n [] = ground (arith, drop-nil (suc i + n), drop-nil n)
drop-drop (suc i) n (x ∷ xs) =
    let e : suc i + n ≡ suc (i + n) = omega arith in rw e (drop-drop i n xs)

pub length-drop : (i : ℕ) (xs : List ℕ) → ltb i (length xs) ≡ ltb 0 (length (drop i xs))
length-drop zero xs = refl
length-drop (suc i) [] = ground arith
length-drop (suc i) (x ∷ xs) = ground (arith, length-drop i xs)

pub without-without :
    (xs ys bucket : List ℕ) → without ys (without xs bucket) ≡ without (xs ++ ys) bucket
without-without xs ys [] = refl
without-without xs ys (key ∷ bucket) =
    ground (arith, any-append (λ x. x == key) xs ys, without-without xs ys bucket)

pub without-nil : (bucket : List ℕ) → without [] bucket ≡ bucket
without-nil [] = refl
without-nil (key ∷ bucket) = ground (arith, without-nil bucket)

pub length-zero : (xs : List ℕ) → length xs ≡ 0 → xs ≡ []
length-zero [] e = refl
length-zero (x ∷ xs) e = absurd (omega arith)

-- What the rounds from index `i` on have left.
abbrev pub left_from : ℕ → List ℕ → Store → Store
left_from i keys s = record s { bucket = without (drop i keys) s.bucket }

pub left_from-end : (i : ℕ) (keys : List ℕ) (s : Store) → drop i keys ≡ [] → left_from i keys s ≡ s
left_from-end i keys s e = ground (arith, without-nil s.bucket)

pub left_from-next :
    (n i : ℕ) (keys : List ℕ) (s : Store)
    → left_from (i + n) keys (record s { bucket = without (take n (drop i keys)) s.bucket })
      ≡ left_from i keys s
left_from-next n i keys s = ground (
  arith,
  drop-drop i n keys,
  without-without (take n (drop i keys)) (drop n (drop i keys)) s.bucket,
  take-append-drop n (drop i keys),
)

pub length-drop_lt :
    (n fuel i : ℕ) (keys : List ℕ)
    → ltb i (length keys) ≡ true
    → length (drop i keys) ≤ suc fuel
    → length (drop (i + suc n) keys) ≤ fuel
length-drop_lt n fuel i keys t h = ground (
  arith,
  drop-drop i (suc n) keys,
  take-append-drop (suc n) (drop i keys),
  length-append (take (suc n) (drop i keys)) (drop (suc n) (drop i keys)),
  length-take (suc n) (drop i keys),
  length-drop i keys,
)
