-- ===== src/Pagination.antt =====
-- src/utils/pagination.ts. `items` is what a query with `take: limit + 1` returned; the undefined
-- and the null cursor are both `none`.
use messinger_backend.Prelude.{
  ℕ, zero, suc, ◌≡◌, refl, true, Option, none, is_some, List, [], ◌∷◌, ◌++◌, ◌<◌, arith, ltb,
  length, take, drop, get_last?, take-append-drop, length-take, if◌then◌else◌,
}
use Prim.Native.Nat.{min}

pub record Paginated {ℓ} (A : Type ℓ) : Type ℓ where
  pub page : List A
  pub next_cursor : Option A

module _ {ℓ} {A : Type ℓ} where
  unfoldable pub paginate : List A → ℕ → Paginated A
  paginate items limit =
      let has_more = ltb limit (length items) in
      let page = take limit items in
      record { page = page; next_cursor = if has_more then get_last? page else none }

  is_some-get_last? : (x : A) (xs : List A) → is_some (get_last? (x ∷ xs)) ≡ true
  is_some-get_last? x [] = refl
  is_some-get_last? x (y ∷ xs) = is_some-get_last? y xs

  pub is_some-cursor :
      (items : List A) (limit : ℕ)
      → 0 < limit
      → is_some (paginate items limit).next_cursor ≡ ltb limit (length items)
  unfolding paginate
  is_some-cursor items zero h = absurd (ground arith)
  is_some-cursor [] (suc n) h = ground arith
  is_some-cursor (x ∷ items) (suc n) h = ground (arith, is_some-get_last? x (take n items))

  -- With a positive limit, the page and the items behind it are the items in their order, the page
  -- is as long as the limit allows, and there is a cursor exactly when some item is behind the page.
  pub paginate_splits :
      (items : List A) (limit : ℕ)
      → 0 < limit
      → ((paginate items limit).page ++ drop limit items ≡ items)
        × (length (paginate items limit).page ≡ min limit (length items))
        × (is_some (paginate items limit).next_cursor ≡ ltb limit (length items))
  unfolding paginate
  paginate_splits items limit h =
      (take-append-drop limit items, length-take limit items, is_some-cursor items limit h)
