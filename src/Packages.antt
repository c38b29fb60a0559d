-- ===== src/Packages.antt =====
-- The other packages that the code calls, as parameters: node's crypto and date-fns. What a proof
-- relies on is a hypothesis of `IsPackages`.
use messinger_backend.Prelude.{ℕ, ◌+◌, ◌-◌, ◌*◌, ◌≡◌, refl, Bool, List, foldl, ltb}
use messinger_backend.Types.{Date, Uuid}

pub record Packages : Type 0 where
  -- `createHash('sha256').update(ids.join(':')).digest('hex')`; an id holds no colon.
  pub sha256_of_ids : List Uuid → ℕ
  -- date-fns
  pub add_hours : Date → ℕ → Date
  pub is_after : Date → Date → Bool
  pub sub_days : Date → ℕ → Date

-- Milliseconds in an hour.
abbrev pub hour : ℕ
hour = 3600000

pub record IsPackages (k : Packages) : Type 0 where
  pub add_hours_lem : (d : Date) (n : ℕ) → k.add_hours d n ≡ d + n * hour
  pub is_after_lem : (a b : Date) → k.is_after a b ≡ ltb b a

-- Packages that behave so, with a polynomial for the digest.
abbrev pub plain_packages : Packages
plain_packages = record {
  sha256_of_ids = foldl (λ h i. h * 1000 + i) 7;
  add_hours = λ d n. d + n * hour;
  is_after = λ a b. ltb b a;
  sub_days = λ d n. d - n * (24 * hour);
}

pub plain_packages-IsPackages : IsPackages plain_packages
plain_packages-IsPackages = record { add_hours_lem = λ d n. refl; is_after_lem = λ a b. refl }
