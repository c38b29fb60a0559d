-- ===== src/Prelude/Cuts.antt =====
-- The first rows of a list, and the last of them.
use Prim.Native.Nat.{ℕ, zero, suc, ◌<◌}
use mathlib.Core.Path.{◌≡◌, refl, ap, subst}
use mathlib.Core.Bool.{true, false}
use mathlib.Core.Option.{none, some}
use mathlib.Core.List.{List, [], ◌∷◌, ◌++◌, map}
use native.Mathlib.Omega.{arith}
use messinger_backend.Prelude.Tests.{ltb}
use messinger_backend.Prelude.Lists.{take, drop, length, get_last?, All}

module _ {A B : Type 0} (f : A → B) where
  pub take-map : (n : ℕ) (xs : List A) → take n (map f (take (suc n) xs)) ≡ map f (take n xs)
  take-map zero xs = refl
  take-map (suc n) [] = refl
  take-map (suc n) (x ∷ xs) = ap (◌∷◌ (f x)) (take-map n xs)

  pub ltb-length :
      (n : ℕ) (xs : List A) → ltb n (length (map f (take (suc n) xs))) ≡ ltb n (length xs)
  ltb-length zero [] = refl
  ltb-length zero (x ∷ xs) = ground arith
  ltb-length (suc n) [] = refl
  ltb-length (suc n) (x ∷ xs) = ground (arith, ltb-length n xs)

  pub get_last?-map :
      (xs : List A) (c : A) → get_last? xs ≡ some c → get_last? (map f xs) ≡ some (f c)
  get_last?-map [] c h = absurd (ground arith)
  get_last?-map (x ∷ []) c h = ground arith
  get_last?-map (x ∷ y ∷ xs) c h = get_last?-map (y ∷ xs) c h

  pub map-append : (xs ys : List A) → map f (xs ++ ys) ≡ map f xs ++ map f ys
  map-append [] ys = refl
  map-append (x ∷ xs) ys = ap (◌∷◌ (f x)) (map-append xs ys)

module _ {A : Type 0} where
  pub take_all : (n : ℕ) (xs : List A) → ltb n (length xs) ≡ false → take n xs ≡ xs
  take_all zero [] h = refl
  take_all zero (x ∷ xs) h = absurd (ground arith)
  take_all (suc n) [] h = refl
  take_all (suc n) (x ∷ xs) h = ap (◌∷◌ x) (take_all n xs (ground arith))

  pub length-drop :
      (n : ℕ) (xs : List A) → 0 < n → ltb n (length xs) ≡ true → length (drop n xs) < length xs
  length-drop zero xs p h = absurd (omega arith)
  length-drop (suc n) [] p h = absurd (ground arith)
  length-drop (suc zero) (x ∷ xs) p h = omega arith
  length-drop (suc (suc n)) (x ∷ xs) p h = ground (arith, length-drop (suc n) xs)

  pub All-get_last? :
      (P : A → Type 0) (xs : List A) (c : A) → All P xs → get_last? xs ≡ some c → P c
  All-get_last? P [] c h e = absurd (ground arith)
  All-get_last? P (x ∷ []) c h e = subst P (ground arith) h.0
  All-get_last? P (x ∷ y ∷ xs) c h e = All-get_last? P (y ∷ xs) c h.1 e

  pub no_last :
      (n : ℕ) (xs : List A) → 0 < n → get_last? (take n xs) ≡ none → ltb n (length xs) ≡ false
  no_last zero xs p h = absurd (omega arith)
  no_last (suc n) [] p h = ground arith
  no_last (suc zero) (x ∷ xs) p h = absurd (ground arith)
  no_last (suc (suc n)) (x ∷ []) p h = absurd (ground arith)
  no_last (suc (suc n)) (x ∷ y ∷ xs) p h = ground (arith, no_last (suc n) (y ∷ xs))
