-- ===== src/Prelude/Rows.antt =====
-- Tests on all or on some rows of a table, through the operations on tables.
use Prim.Native.Nat.{ℕ}
use mathlib.Core.Path.{◌≡◌, refl, sym, ap}
use mathlib.Core.Logic.{inl, inr}
use mathlib.Core.Bool.{Bool, true, false, ◌&&◌, ◌||◌}
use mathlib.Core.List.{List, [], ◌∷◌, ◌++◌}
use native.Mathlib.Omega.{arith}
use messinger_backend.Prelude.Tests.{if◌then◌else◌}
use messinger_backend.Prelude.Lists.{filter, any, map_where, Any, includes}

module _ {A : Type 0} where
  -- `Array.prototype.every`
  abbrev pub all : (A → Bool) → List A → Bool
  all p [] = true
  all p (x ∷ xs) = p x && all p xs

  pub all_of_Any :
      (p : A → Bool) (xs : List A) (r : A) → Any (λ x. x ≡ r) xs → all p xs ≡ true → p r ≡ true
  all_of_Any p [] r h a = absurd h
  all_of_Any p (x ∷ xs) r (inl e) a = ground arith
  all_of_Any p (x ∷ xs) r (inr h) a = all_of_Any p xs r h (ground arith)

  pub any_of_Any :
      (p : A → Bool) (xs : List A) (r : A) → Any (λ x. x ≡ r) xs → p r ≡ true → any p xs ≡ true
  any_of_Any p [] r h e = absurd h
  any_of_Any p (x ∷ xs) r (inl h) e = ground arith
  any_of_Any p (x ∷ xs) r (inr h) e = ground (arith, any_of_Any p xs r h e)

  pub all-append : (p : A → Bool) (xs ys : List A) → all p (xs ++ ys) ≡ (all p xs && all p ys)
  all-append p [] ys = refl
  all-append p (x ∷ xs) ys = ground (arith, all-append p xs ys)

  pub any-append : (p : A → Bool) (xs ys : List A) → any p (xs ++ ys) ≡ (any p xs || any p ys)
  any-append p [] ys = refl
  any-append p (x ∷ xs) ys = ground (arith, any-append p xs ys)

  pub all-filter : (p q : A → Bool) (xs : List A) → all p xs ≡ true → all p (filter q xs) ≡ true
  all-filter p q [] h = refl
  all-filter p q (x ∷ xs) h = ground (arith, all-filter p q xs)

  -- A row that no pick of the filter meets is not found behind it.
  pub any-filter : (p q : A → Bool) (xs : List A) → any p xs ≡ false → any p (filter q xs) ≡ false
  any-filter p q [] h = refl
  any-filter p q (x ∷ xs) h = ground (arith, any-filter p q xs)

  pub any-filter_out :
      (p q : A → Bool) (xs : List A)
      → ((x : A) → q x ≡ true → p x ≡ false)
      → any p (filter q xs) ≡ false
  any-filter_out p q [] h = refl
  any-filter_out p q (x ∷ xs) h = ground (arith, h x, any-filter_out p q xs h)

  pub any-filter_keep :
      (p q : A → Bool) (xs : List A)
      → ((x : A) → p x ≡ true → q x ≡ true)
      → any p (filter q xs) ≡ any p xs
  any-filter_keep p q [] h = refl
  any-filter_keep p q (x ∷ xs) h = ground (arith, h x, any-filter_keep p q xs h)

  pub all-map_where :
      (p p' q : A → Bool) (f : A → A) (xs : List A)
      → ((x : A) → p x ≡ true → p' (if q x then f x else x) ≡ true)
      → all p xs ≡ true
      → all p' (map_where q f xs) ≡ true
  all-map_where p p' q f [] h a = refl
  all-map_where p p' q f (x ∷ xs) h a = ground (arith, h x, all-map_where p p' q f xs h)

  pub any-map_where :
      (p q : A → Bool) (f : A → A) (xs : List A)
      → ((x : A) → p (if q x then f x else x) ≡ p x)
      → any p (map_where q f xs) ≡ any p xs
  any-map_where p q f [] h = refl
  any-map_where p q f (x ∷ xs) h = ground (arith, h x, any-map_where p q f xs h)

  pub all_and :
      (p q r : A → Bool) (xs : List A)
      → ((x : A) → p x ≡ true → q x ≡ true → r x ≡ true)
      → all p xs ≡ true
      → all q xs ≡ true
      → all r xs ≡ true
  all_and p q r [] h a b = refl
  all_and p q r (x ∷ xs) h a b = ground (arith, h x, all_and p q r xs h)

  -- What no row meets, no row meets together with more.
  pub all_of_none :
      (p q : A → Bool) (xs : List A)
      → any p xs ≡ false
      → ((x : A) → p x ≡ false → q x ≡ true)
      → all q xs ≡ true
  all_of_none p q [] a h = refl
  all_of_none p q (x ∷ xs) a h = ground (arith, h x, all_of_none p q xs)

  pub none_of_all :
      (p q : A → Bool) (xs : List A)
      → ((x : A) → p x ≡ true → q x ≡ false)
      → all p xs ≡ true
      → any q xs ≡ false
  none_of_all p q [] h a = refl
  none_of_all p q (x ∷ xs) h a = ground (arith, h x, none_of_all p q xs h)

  pub none_of_none :
      (p q : A → Bool) (xs : List A)
      → ((x : A) → p x ≡ false → q x ≡ false)
      → any p xs ≡ false
      → any q xs ≡ false
  none_of_none p q [] h a = refl
  none_of_none p q (x ∷ xs) h a = ground (arith, h x, none_of_none p q xs h)

  -- A changed row that passes a test.
  pub any-map_where_hit :
      (p q : A → Bool) (f : A → A) (xs : List A) (r : A)
      → Any (λ x. x ≡ r) xs
      → q r ≡ true
      → p (f r) ≡ true
      → any p (map_where q f xs) ≡ true
  any-map_where_hit p q f [] r h a b = absurd h
  any-map_where_hit p q f (x ∷ xs) r (inl e) a b = ground arith
  any-map_where_hit p q f (x ∷ xs) r (inr h) a b = ground (arith, any-map_where_hit p q f xs r h)

-- The only row that passes is the one at the end.
pub last_with :
    {A : Type 0} (p : A → Bool) (xs : List A) (a b : A)
    → any p xs ≡ false
    → p b ≡ true
    → Any (λ x. x ≡ b) (xs ++ a ∷ [])
    → b ≡ a
last_with p [] a b h t (inl e) = sym e
last_with p [] a b h t (inr e) = absurd e
last_with p (x ∷ xs) a b h t (inl e) = absurd (ground arith)
last_with p (x ∷ xs) a b h t (inr e) = last_with p xs a b (ground arith) t e

pub includes-eq : (id a : ℕ) (ids : List ℕ) → id ≡ a → includes ids id ≡ includes ids a
includes-eq id a ids e = ap (includes ids) e
