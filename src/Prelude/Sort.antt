-- ===== src/Prelude/Sort.antt =====
-- Lists that are sorted by a number, and how a stable sort changes a list.
use Prim.Native.Nat.{ℕ, zero, suc}
use mathlib.Core.Path.{◌≡◌, refl, ◌∙◌}
use mathlib.Core.Bool.{Bool, true, false, not, ◌&&◌}
use mathlib.Core.List.{List, [], ◌∷◌}
use native.Mathlib.Omega.{arith}
use messinger_backend.Prelude.Tests.{if◌then◌else◌, ltb, leb}
use messinger_backend.Prelude.Lists.{filter, any, length, take}
use messinger_backend.Prelude.Rows.{all}

-- The numbers do not fall, or do not grow if the order is descending.
abbrev pub in_order : Bool → ℕ → ℕ → Bool
in_order true a b = leb b a
in_order false a b = leb a b

abbrev pub is_sorted : {R : Type 0} → (R → ℕ) → Bool → List R → Bool
is_sorted key descending [] = true
is_sorted key descending (r ∷ rs) =
    all (λ x. in_order descending (key r) (key x)) rs && is_sorted key descending rs

-- A stable sort by insertion.
abbrev pub insert_row : {R : Type 0} → (R → ℕ) → Bool → R → List R → List R
insert_row key d r [] = r ∷ []
insert_row key d r (x ∷ xs) =
    let rest = insert_row key d r xs in if in_order d (key r) (key x) then r ∷ x ∷ xs else x ∷ rest

abbrev pub sort_rows : {R : Type 0} → (R → ℕ) → Bool → List R → List R
sort_rows key d [] = []
sort_rows key d (r ∷ rs) = insert_row key d r (sort_rows key d rs)

count-insert_row :
    {R : Type 0} (q : R → Bool) (key : R → ℕ) (d : Bool) (r : R) (xs : List R)
    → length (filter q (insert_row key d r xs)) ≡ length (filter q (r ∷ xs))
count-insert_row q key d r [] = refl
count-insert_row q key d r (x ∷ xs) = ground (arith, count-insert_row q key d r xs)

pub count-sort_rows :
    {R : Type 0} (q : R → Bool) (key : R → ℕ) (d : Bool) (xs : List R)
    → length (filter q (sort_rows key d xs)) ≡ length (filter q xs)
count-sort_rows q key d [] = refl
count-sort_rows q key d (x ∷ xs) =
    ground (arith, count-insert_row q key d x (sort_rows key d xs), count-sort_rows q key d xs)

all-insert_row :
    {R : Type 0} (q : R → Bool) (key : R → ℕ) (d : Bool) (r : R) (xs : List R)
    → all q (insert_row key d r xs) ≡ (q r && all q xs)
all-insert_row q key d r [] = refl
all-insert_row q key d r (x ∷ xs) = ground (arith, all-insert_row q key d r xs)

in_order-all :
    {R : Type 0} (key : R → ℕ) (d : Bool) (a b : ℕ) (xs : List R)
    → in_order d a b ≡ true
    → all (λ x. in_order d b (key x)) xs ≡ true
    → all (λ x. in_order d a (key x)) xs ≡ true
in_order-all key d a b [] h k = refl
in_order-all key true a b (x ∷ xs) h k = ground (arith, in_order-all key true a b xs)
in_order-all key false a b (x ∷ xs) h k = ground (arith, in_order-all key false a b xs)

in_order_total : (d : Bool) (a b : ℕ) → in_order d a b ≡ false → in_order d b a ≡ true
in_order_total true a b h = ground arith
in_order_total false a b h = ground arith

insert_row-is_sorted :
    {R : Type 0} (key : R → ℕ) (d : Bool) (r : R) (xs : List R)
    → is_sorted key d xs ≡ true
    → is_sorted key d (insert_row key d r xs) ≡ true
insert_row-is_sorted key d r [] h = refl
insert_row-is_sorted key d r (x ∷ xs) h = ground (
  arith,
  in_order-all key d (key r) (key x) xs,
  in_order_total d (key r) (key x),
  all-insert_row (λ y. in_order d (key x) (key y)) key d r xs,
  insert_row-is_sorted key d r xs,
)

pub sort_rows-is_sorted :
    {R : Type 0} (key : R → ℕ) (d : Bool) (xs : List R)
    → is_sorted key d (sort_rows key d xs) ≡ true
sort_rows-is_sorted key d [] = refl
sort_rows-is_sorted key d (x ∷ xs) =
    insert_row-is_sorted key d x (sort_rows key d xs) (sort_rows-is_sorted key d xs)

module _ {R : Type 0} where
  -- Rows of which none fails a test.
  pub all_of_count :
      (q : R → Bool) (xs : List R) → length (filter (λ x. not (q x)) xs) ≡ 0 → all q xs ≡ true
  all_of_count q [] h = refl
  all_of_count q (x ∷ xs) h = ground (arith, all_of_count q xs)

  pub count_of_all :
      (q : R → Bool) (xs : List R) → all q xs ≡ true → length (filter (λ x. not (q x)) xs) ≡ 0
  count_of_all q [] h = refl
  count_of_all q (x ∷ xs) h = ground (arith, count_of_all q xs)

  pub all_imp :
      (p q : R → Bool) (xs : List R)
      → ((x : R) → p x ≡ true → q x ≡ true)
      → all p xs ≡ true
      → all q xs ≡ true
  all_imp p q [] h a = refl
  all_imp p q (x ∷ xs) h a = ground (arith, h x, all_imp p q xs h)

  pub all-filter_self : (q : R → Bool) (xs : List R) → all q (filter q xs) ≡ true
  all-filter_self q [] = refl
  all-filter_self q (x ∷ xs) = ground (arith, all-filter_self q xs)

  pub all-take : (q : R → Bool) (n : ℕ) (xs : List R) → all q xs ≡ true → all q (take n xs) ≡ true
  all-take q zero xs h = refl
  all-take q (suc n) [] h = refl
  all-take q (suc n) (x ∷ xs) h = ground (arith, all-take q n xs)

  pub is_sorted-take :
      (key : R → ℕ) (d : Bool) (n : ℕ) (xs : List R)
      → is_sorted key d xs ≡ true
      → is_sorted key d (take n xs) ≡ true
  is_sorted-take key d zero xs h = refl
  is_sorted-take key d (suc n) [] h = refl
  is_sorted-take key d (suc n) (x ∷ xs) h =
      ground (arith, all-take (λ y. in_order d (key x) (key y)) n xs, is_sorted-take key d n xs)

  pub all-sort_rows :
      (q : R → Bool) (key : R → ℕ) (d : Bool) (xs : List R)
      → all q xs ≡ true
      → all q (sort_rows key d xs) ≡ true
  all-sort_rows q key d xs h =
      all_of_count q (sort_rows key d xs)
        (count-sort_rows (λ x. not (q x)) key d xs ∙ count_of_all q xs h)

  pub any_count : (q : R → Bool) (xs : List R) → any q xs ≡ ltb 0 (length (filter q xs))
  any_count q [] = refl
  any_count q (x ∷ xs) = ground (arith, any_count q xs)

  pub any-filter_and :
      (p q : R → Bool) (xs : List R) → any q (filter p xs) ≡ any (λ x. p x && q x) xs
  any-filter_and p q [] = refl
  any-filter_and p q (x ∷ xs) = ground (arith, any-filter_and p q xs)

  pub any_self : (p : R → Bool) (xs : List R) → any (λ x. p x && p x) xs ≡ any p xs
  any_self p [] = refl
  any_self p (x ∷ xs) = ground (arith, any_self p xs)
