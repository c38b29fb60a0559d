-- ===== src/Prelude/Latest.antt =====
-- Lists that are sorted by two numbers, the greatest first: `ORDER BY a DESC, b DESC`.
use Prim.Native.Nat.{ℕ, zero, suc}
use mathlib.Core.Path.{◌≡◌, refl}
use mathlib.Core.Logic.{inl, inr}
use mathlib.Core.Bool.{Bool, true, not, ◌&&◌, ◌||◌}
use mathlib.Core.Option.{some}
use mathlib.Core.List.{List, [], ◌∷◌}
use native.Mathlib.Omega.{arith}
use messinger_backend.Prelude.Tests.{if◌then◌else◌, ltb, ◌==◌, Bool-cases}
use messinger_backend.Prelude.Lists.{filter, take, drop, get_last?, All}
use messinger_backend.Prelude.Rows.{all, all-filter}

module _ {R : Type 0} where
  -- No two rows have the same number.
  abbrev pub distinct : (R → ℕ) → List R → Bool
  distinct k [] = true
  distinct k (r ∷ rs) = all (λ x. not (k x == k r)) rs && distinct k rs

  filter-all : (q : R → Bool) (xs : List R) → all q xs ≡ true → filter q xs ≡ xs
  filter-all q [] h = refl
  filter-all q (x ∷ xs) h = ground (arith, filter-all q xs)

  pub all-get_last? :
      (q : R → Bool) (n : ℕ) (xs : List R) (c : R)
      → get_last? (take n xs) ≡ some c
      → all q xs ≡ true
      → q c ≡ true
  all-get_last? q zero xs c e h = absurd (ground arith)
  all-get_last? q (suc n) [] c e h = absurd (ground arith)
  all-get_last? q (suc zero) (x ∷ xs) c e h = ground arith
  all-get_last? q (suc (suc n)) (x ∷ []) c e h = ground arith
  all-get_last? q (suc (suc n)) (x ∷ y ∷ ys) c e h =
      ground (arith, all-get_last? q (suc n) (y ∷ ys) c)

  module _ (a b : R → ℕ) where
    abbrev pub comes_before : R → R → Bool
    comes_before r x = ltb (a x) (a r) || (a x == a r && ltb (b x) (b r))

    abbrev pub is_latest_first : List R → Bool
    is_latest_first [] = true
    is_latest_first (r ∷ rs) = all (comes_before r) rs && is_latest_first rs

    abbrev pub insert_latest : R → List R → List R
    insert_latest r [] = r ∷ []
    insert_latest r (x ∷ xs) =
        let rest = insert_latest r xs in if comes_before r x then r ∷ x ∷ xs else x ∷ rest

    abbrev pub sort_latest : List R → List R
    sort_latest [] = []
    sort_latest (r ∷ rs) = insert_latest r (sort_latest rs)

    all-insert_latest :
        (q : R → Bool) (r : R) (xs : List R) → all q (insert_latest r xs) ≡ (q r && all q xs)
    all-insert_latest q r [] = refl
    all-insert_latest q r (x ∷ xs) = ground (arith, all-insert_latest q r xs)

    all-sort_latest : (q : R → Bool) (xs : List R) → all q (sort_latest xs) ≡ all q xs
    all-sort_latest q [] = refl
    all-sort_latest q (x ∷ xs) =
        ground (arith, all-insert_latest q x (sort_latest xs), all-sort_latest q xs)

    comes_before-all :
        (r x : R) (xs : List R)
        → comes_before r x ≡ true
        → all (comes_before x) xs ≡ true
        → all (comes_before r) xs ≡ true
    comes_before-all r x [] h k = refl
    comes_before-all r x (y ∷ ys) h k = ground (arith, comes_before-all r x ys)

    insert_latest-is_latest_first :
        (r : R) (xs : List R)
        → all (λ x. not (b x == b r)) xs ≡ true
        → is_latest_first xs ≡ true
        → is_latest_first (insert_latest r xs) ≡ true
    insert_latest-is_latest_first r [] d h = refl
    insert_latest-is_latest_first r (x ∷ xs) d h = ground (
      arith,
      comes_before-all r x xs,
      all-insert_latest (comes_before x) r xs,
      insert_latest-is_latest_first r xs,
    )

    pub sort_latest-is_latest_first :
        (xs : List R) → distinct b xs ≡ true → is_latest_first (sort_latest xs) ≡ true
    sort_latest-is_latest_first [] d = refl
    sort_latest-is_latest_first (x ∷ xs) d = ground (
      arith,
      all-sort_latest (λ y. not (b y == b x)) xs,
      insert_latest-is_latest_first x (sort_latest xs),
      sort_latest-is_latest_first xs,
    )

    insert_latest-front :
        (r : R) (xs : List R) → all (comes_before r) xs ≡ true → insert_latest r xs ≡ r ∷ xs
    insert_latest-front r [] h = refl
    insert_latest-front r (x ∷ xs) h = ground arith

    filter-insert_latest :
        (q : R → Bool) (r : R) (xs : List R)
        → is_latest_first xs ≡ true
        → filter q (insert_latest r xs)
          ≡ (if q r then insert_latest r (filter q xs) else filter q xs)
    filter-insert_latest q r [] h = ground arith
    filter-insert_latest q r (x ∷ xs) h = ground (
      arith,
      filter-insert_latest q r xs,
      comes_before-all r x xs,
      all-filter (comes_before r) q xs,
      insert_latest-front r (filter q xs),
    )

    -- A filter may come before or after the sort.
    pub filter-sort_latest :
        (q : R → Bool) (xs : List R)
        → distinct b xs ≡ true
        → filter q (sort_latest xs) ≡ sort_latest (filter q xs)
    filter-sort_latest q [] d = refl
    filter-sort_latest q (x ∷ xs) d = ground (
      arith,
      sort_latest-is_latest_first xs,
      filter-insert_latest q x (sort_latest xs),
      filter-sort_latest q xs,
    )

    pub All-sort_latest : (P : R → Type 0) (xs : List R) → All P xs → All P (sort_latest xs)
    All-sort_latest P [] h = tt
    All-sort_latest P (x ∷ xs) h = All-insert x (sort_latest xs) h.0 (All-sort_latest P xs h.1)
      where
        All-insert : (r : R) (ys : List R) → P r → All P ys → All P (insert_latest r ys)
        All-insert r [] p h = (p, tt)
        All-insert r (y ∷ ys) p h = elim (Bool-cases (comes_before r y)) [
          | inl before ↦ rw before (p, h)
          | inr behind ↦ rw behind (h.0, All-insert r ys p h.1)
        ]

    -- The rows behind the last of the first n rows are those that come after it.
    pub filter-get_last? :
        (n : ℕ) (xs : List R) (c : R)
        → is_latest_first xs ≡ true
        → get_last? (take n xs) ≡ some c
        → filter (comes_before c) xs ≡ drop n xs
    filter-get_last? zero xs c h e = absurd (ground arith)
    filter-get_last? (suc n) [] c h e = absurd (ground arith)
    filter-get_last? (suc zero) (x ∷ xs) c h e = ground (arith, filter-all (comes_before x) xs)
    filter-get_last? (suc (suc n)) (x ∷ []) c h e = ground arith
    filter-get_last? (suc (suc n)) (x ∷ y ∷ ys) c h e = ground (
      arith,
      filter-get_last? (suc n) (y ∷ ys) c,
      all-get_last? (comes_before x) (suc n) (y ∷ ys) c,
    )
