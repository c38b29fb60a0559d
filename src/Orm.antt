-- ===== src/Orm.antt =====
-- TypeORM and the PostgreSQL server behind it, which the repositories call: the interface `Orm`,
-- the documented behaviour `IsOrm`, and the table operations written out, which have it.
-- A table is the list of its rows. Which of several matching rows `findOne` returns is not said.
use messinger_backend.Prelude.{
  ℕ, ◌≤◌, arith, ◌≡◌, refl, inl, inr, Bool, true, false, not, Option, none, some, List, [], ◌∷◌,
  ◌++◌, if◌then◌else◌, length, filter, any, map_where, Any, Bool-cases,
}
use messinger_backend.Prelude.Sort.{is_sorted, sort_rows, sort_rows-is_sorted, count-sort_rows}
use messinger_backend.Prelude.Latest.{distinct, sort_latest}
use messinger_backend.Types.{Uuid, Date}
use messinger_backend.Exceptions.{Result, ok, err}

pub record Orm : Type 1 where
  -- `repository.findOne({ where })`
  pub find_one : (R : Type 0) → (R → Bool) → List R → Option R
  -- `repository.find({ where })`
  pub find : (R : Type 0) → (R → Bool) → List R → List R
  -- `repository.find({ where, order })`, by a number in each row; newest first, if `true`.
  pub find_sorted : (R : Type 0) → (R → Bool) → (R → ℕ) → Bool → List R → List R
  -- `createQueryBuilder().where().orderBy(…, 'DESC').addOrderBy(…, 'DESC').getMany()`, by two numbers
  -- in each row.
  pub find_latest : (R : Type 0) → (R → Bool) → (R → ℕ) → (R → ℕ) → List R → List R
  -- `repository.existsBy(where)`
  pub exists_by : (R : Type 0) → (R → Bool) → List R → Bool
  -- `repository.count({ where })`
  pub count : (R : Type 0) → (R → Bool) → List R → ℕ
  -- `repository.insert(rows)`, with the constraints of the table; `none` if a row violates them.
  pub insert : (R : Type 0) → (List R → R → Bool) → List R → List R → Option (List R)
  -- `repository.update(where, patch)`
  pub update : (R : Type 0) → (R → Bool) → (R → R) → List R → List R
  -- `repository.delete(where)`
  pub delete : (R : Type 0) → (R → Bool) → List R → List R
  -- `AppDataSource.transaction(work)`, on a state of which the database is a part. The function says
  -- what a state is after the database has gone back to that of an earlier one.
  pub transaction : (S A : Type 0) → (S → S → S) → (S → Result A × S) → S → Result A × S
  -- The `Date`, with milliseconds, that the driver makes of a `timestamptz`, which has microseconds.
  pub read_date : Date → Date
  -- The n-th id that the server generates.
  pub uuid : ℕ → Uuid

-- The rows are checked and added in order.
abbrev pub insert_rows : {R : Type 0} → (List R → R → Bool) → List R → List R → Option (List R)
insert_rows admits [] table = some table
insert_rows admits (r ∷ rs) table =
    let rest = insert_rows admits rs (table ++ r ∷ []) in if admits table r then rest else none

abbrev pub delete_rows : {R : Type 0} → (R → Bool) → List R → List R
delete_rows p = filter (λ r. not (p r))

abbrev pub roll_back : {S A : Type 0} → (S → S → S) → S → Result A × S → Result A × S
roll_back back s (ok a, s') = (ok a, s')
roll_back back s (err e, s') = (err e, back s s')

-- The answer of `findOne`: a matching row of the table, or none when there is none.
abbrev pub Found : {R : Type 0} → (R → Bool) → List R → Option R → Type 0
Found p rows none = any p rows ≡ false
Found p rows (some r) = (p r ≡ true) × Any (λ x. x ≡ r) rows

pub record IsOrm (o : Orm) : Type 1 where
  pub find_one-Found : (R : Type 0) (p : R → Bool) (t : List R) → Found p t (o.find_one R p t)
  pub find_lem : (R : Type 0) (p : R → Bool) (t : List R) → o.find R p t ≡ filter p t
  pub find_sorted-is_sorted :
      (R : Type 0) (p : R → Bool) (key : R → ℕ) (d : Bool) (t : List R)
      → is_sorted key d (o.find_sorted R p key d t) ≡ true
  -- The same rows, each as often.
  pub find_sorted-count :
      (R : Type 0) (p q : R → Bool) (key : R → ℕ) (d : Bool) (t : List R)
      → length (filter q (o.find_sorted R p key d t)) ≡ length (filter q (filter p t))
  -- When the second number tells the rows apart, the order leaves no choice.
  pub find_latest_lem :
      (R : Type 0) (p : R → Bool) (a b : R → ℕ) (t : List R)
      → distinct b t ≡ true
      → o.find_latest R p a b t ≡ sort_latest a b (filter p t)
  pub exists_by_lem : (R : Type 0) (p : R → Bool) (t : List R) → o.exists_by R p t ≡ any p t
  pub count_lem : (R : Type 0) (p : R → Bool) (t : List R) → o.count R p t ≡ length (filter p t)
  pub insert_lem :
      (R : Type 0) (admits : List R → R → Bool) (rows t : List R)
      → o.insert R admits rows t ≡ insert_rows admits rows t
  pub update_lem :
      (R : Type 0) (p : R → Bool) (f : R → R) (t : List R) → o.update R p f t ≡ map_where p f t
  pub delete_lem : (R : Type 0) (p : R → Bool) (t : List R) → o.delete R p t ≡ delete_rows p t
  pub transaction_lem :
      (S A : Type 0) (back : S → S → S) (work : S → Result A × S) (s : S)
      → o.transaction S A back work s ≡ roll_back back s (work s)
  -- It is the latest whole millisecond that is not later.
  pub read_date_le : (d : Date) → o.read_date d ≤ d
  pub read_date_whole : (d : Date) → o.read_date (o.read_date d) ≡ o.read_date d
  pub read_date_latest : (d e : Date) → o.read_date e ≡ e → e ≤ d → e ≤ o.read_date d
  pub uuid-injective : (m n : ℕ) → o.uuid m ≡ o.uuid n → m ≡ n

-- The operations written out, over a choice of `findOne`, of the `Date`s and of the generated ids.
abbrev pub table_orm :
    ((R : Type 0) → (R → Bool) → List R → Option R)
    → ((R : Type 0) → (R → Bool) → (R → ℕ) → Bool → List R → List R)
    → ((R : Type 0) → (R → Bool) → (R → ℕ) → (R → ℕ) → List R → List R)
    → (Date → Date)
    → (ℕ → Uuid)
    → Orm
table_orm find_one find_sorted find_latest read_date uuid = record {
  find_one = find_one;
  find_sorted = find_sorted;
  find_latest = find_latest;
  find = λ R p t. filter p t;
  exists_by = λ R p t. any p t;
  count = λ R p t. length (filter p t);
  insert = λ R admits rows t. insert_rows admits rows t;
  update = λ R p f t. map_where p f t;
  delete = λ R p t. delete_rows p t;
  transaction = λ S A back work s. roll_back back s (work s);
  read_date = read_date;
  uuid = uuid;
}

-- Whatever behaves as documented computes like `table_orm`.
pub orm-eq-table_orm :
    {o : Orm} → IsOrm o → o ≡ table_orm o.find_one o.find_sorted o.find_latest o.read_date o.uuid
orm-eq-table_orm {o} l = λ i. record {
  find_one = o.find_one;
  find = λ R p t. l.find_lem R p t i;
  find_sorted = o.find_sorted;
  find_latest = o.find_latest;
  exists_by = λ R p t. l.exists_by_lem R p t i;
  count = λ R p t. l.count_lem R p t i;
  insert = λ R admits rows t. l.insert_lem R admits rows t i;
  update = λ R p f t. l.update_lem R p f t i;
  delete = λ R p t. l.delete_lem R p t i;
  transaction = λ S A back work s. l.transaction_lem S A back work s i;
  read_date = o.read_date;
  uuid = o.uuid;
}

-- `findOne` may return the first matching row.
abbrev pub first : (R : Type 0) → (R → Bool) → List R → Option R
first R p [] = none
first R p (x ∷ xs) = if p x then some x else first R p xs

Found-cons :
    {R : Type 0} (p : R → Bool) (x : R) (t : List R) (r : Option R)
    → p x ≡ false
    → Found p t r
    → Found p (x ∷ t) r
Found-cons p x t none e h = rw e h
Found-cons p x t (some r) e h = (h.0, inr h.1)

pub first-Found : (R : Type 0) (p : R → Bool) (t : List R) → Found p t (first R p t)
first-Found R p [] = refl
first-Found R p (x ∷ xs) = elim (Bool-cases (p x)) [
  | inl here ↦ rw here (here, inl refl)
  | inr there ↦ rw there (Found-cons p x xs (first R p xs) there (first-Found R p xs))
]

abbrev pub sorted_rows : (R : Type 0) → (R → Bool) → (R → ℕ) → Bool → List R → List R
sorted_rows R p key d t = sort_rows key d (filter p t)

abbrev pub first_orm : Orm
first_orm =
    table_orm first sorted_rows (λ R p a b t. sort_latest a b (filter p t)) (λ d. d) (λ n. n)

pub first_orm-IsOrm : IsOrm first_orm
first_orm-IsOrm = record {
  find_one-Found = first-Found;
  find_lem = λ R p t. refl;
  find_sorted-is_sorted = λ R p key d t. sort_rows-is_sorted key d (filter p t);
  find_sorted-count = λ R p q key d t. count-sort_rows q key d (filter p t);
  find_latest_lem = λ R p a b t d. refl;
  exists_by_lem = λ R p t. refl;
  count_lem = λ R p t. refl;
  insert_lem = λ R admits rows t. refl;
  update_lem = λ R p f t. refl;
  delete_lem = λ R p t. refl;
  transaction_lem = λ S A back work s. refl;
  read_date_le = λ d. omega arith;
  read_date_whole = λ d. refl;
  read_date_latest = λ d e w h. h;
  uuid-injective = λ m n e. e;
}
