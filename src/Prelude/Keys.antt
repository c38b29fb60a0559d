-- ===== src/Prelude/Keys.antt =====
-- Tables whose rows have keys, and which rows a query leaves.
use Prim.Native.Nat.{ℕ, zero, suc}
use mathlib.Core.Path.{◌≡◌, refl, ◌∙◌, sym, ap, subst}
use mathlib.Core.Logic.{inl, inr}
use mathlib.Core.Bool.{Bool, true, not, ◌&&◌}
use mathlib.Core.List.{List, [], ◌∷◌}
use native.Mathlib.Omega.{arith}
use messinger_backend.Prelude.Tests.{◌==◌, Bool-cases}
use messinger_backend.Prelude.Lists.{filter, take, All, Any}
use messinger_backend.Prelude.Rows.{all-filter, all_of_Any}
use messinger_backend.Prelude.Latest.{distinct}

module _ {R : Type 0} where
  pub filter-and :
      (p q : R → Bool) (xs : List R) → filter (λ x. p x && q x) xs ≡ filter q (filter p xs)
  filter-and p q [] = refl
  filter-and p q (x ∷ xs) = ground (arith, filter-and p q xs)

  pub distinct-filter :
      (k : R → ℕ) (p : R → Bool) (xs : List R)
      → distinct k xs ≡ true
      → distinct k (filter p xs) ≡ true
  distinct-filter k p [] d = refl
  distinct-filter k p (x ∷ xs) d =
      ground (arith, all-filter (λ y. not (k y == k x)) p xs, distinct-filter k p xs)

  pub All-filter_self :
      (P : R → Type 0) (p : R → Bool) (xs : List R) → All P xs → All P (filter p xs)
  All-filter_self P p [] h = tt
  All-filter_self P p (x ∷ xs) h = elim (Bool-cases (p x)) [
    | inl holds ↦ rw holds (h.0, All-filter_self P p xs h.1)
    | inr fails ↦ rw fails (All-filter_self P p xs h.1)
  ]

  pub All-take : (P : R → Type 0) (n : ℕ) (xs : List R) → All P xs → All P (take n xs)
  All-take P zero xs h = tt
  All-take P (suc n) [] h = tt
  All-take P (suc n) (x ∷ xs) h = (h.0, All-take P n xs h.1)

  pub All-imp : (P Q : R → Type 0) (xs : List R) → ((x : R) → P x → Q x) → All P xs → All Q xs
  All-imp P Q [] f h = tt
  All-imp P Q (x ∷ xs) f h = (f x h.0, All-imp P Q xs f h.1)

  pub All-both : (P Q : R → Type 0) (xs : List R) → All P xs → All Q xs → All (λ x. P x × Q x) xs
  All-both P Q [] h k = tt
  All-both P Q (x ∷ xs) h k = ((h.0, k.0), All-both P Q xs h.1 k.1)

  pub All-members : (xs : List R) → All (λ x. Any (λ y. y ≡ x) xs) xs
  All-members [] = tt
  All-members (x ∷ xs) = (
    inl refl,
    All-imp (λ y. Any (λ z. z ≡ y) xs) (λ y. Any (λ z. z ≡ y) (x ∷ xs)) xs (λ y h. inr h)
        (All-members xs),
  )

  pub distinct-same :
      (k : R → ℕ) (xs : List R) (a b : R)
      → distinct k xs ≡ true
      → Any (λ x. x ≡ a) xs
      → Any (λ x. x ≡ b) xs
      → k a ≡ k b
      → a ≡ b
  distinct-same k [] a b d h g e = absurd h
  distinct-same k (x ∷ xs) a b d (inl h) (inl g) e = sym h ∙ g
  distinct-same k (x ∷ xs) a b d (inl h) (inr g) e =
      absurd (ground (arith, all_of_Any (λ y. not (k y == k x)) xs b g, ap k h))
  distinct-same k (x ∷ xs) a b d (inr h) (inl g) e =
      absurd (ground (arith, all_of_Any (λ y. not (k y == k x)) xs a h, ap k g))
  distinct-same k (x ∷ xs) a b d (inr h) (inr g) e = distinct-same k xs a b (ground arith) h g e

pub Any-All :
    {R : Type 0} (P : R → Type 0) (x : R) (xs : List R) → Any (λ y. y ≡ x) xs → All P xs → P x
Any-All P x [] h a = absurd h
Any-All P x (y ∷ ys) (inl h) a = subst P h a.0
Any-All P x (y ∷ ys) (inr h) a = Any-All P x ys h a.1
