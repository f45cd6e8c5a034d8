-- ===== src/Query/Builder/Results.antt =====
-- The ways of materialising a query's results against each other.
use jsonpy_sql.Prelude.{
  ℕ, suc, ◌+◌, ◌≡◌, refl, ◌∙◌, ap, Option, none, some, List, [], ◌∷◌, length, arith,
}
use jsonpy_sql.Python.Value.{Document}
use jsonpy_sql.Python.Result.{ok, ok-injective, call_returned}
use jsonpy_sql.Storage.SortedDict.{SortedDict}
use jsonpy_sql.Storage.Engine.{Engine}
use jsonpy_sql.Query.Rows.{Rows, stop, raise, row}
use jsonpy_sql.Query.Rows as Rows
use jsonpy_sql.Query.Builder.{QueryBuilder, run, to_list, first, count, first_row, count_rows}

abbrev pub head : List Document → Option Document
head [] = none
head (d ∷ ds) = some d

count_rows_lem :
    (n : ℕ) (rows : Rows) (ds : List Document)
    → Rows.to_list rows ≡ ok ds
    → count_rows n rows ≡ ok (n + length ds)
unfolding Rows.to_list count_rows
count_rows_lem n stop ds h = rw (← ok-injective h) (ap ok (omega arith))
count_rows_lem n (raise x) ds h = absurd (cc)
count_rows_lem n (row d rows) ds h =
    let (es, q, k) = call_returned (Rows.to_list rows) _ h in
    rw (← ok-injective k) (count_rows_lem (suc n) rows es q ∙ ap ok (omega arith))

first_row_lem :
    (rows : Rows) (ds : List Document) → Rows.to_list rows ≡ ok ds → first_row rows ≡ ok (head ds)
unfolding Rows.to_list first_row
first_row_lem stop ds h = rw (← ok-injective h) refl
first_row_lem (raise x) ds h = absurd (cc)
first_row_lem (row d rows) ds h =
    let (es, q, k) = call_returned (Rows.to_list rows) _ h in rw (← ok-injective k) refl

module _ {S : Type 0} ⦃sd : SortedDict S⦄ where
  -- Where `to_list` succeeds, `count` is the length of its list, and `first` is its first document
  -- or nothing.
  pub count-to_list :
      (q : QueryBuilder) (e : Engine S) (ds : List Document)
      → to_list q e ≡ ok ds
      → (count q e ≡ ok (length ds)) × (first q e ≡ ok (head ds))
  unfolding to_list count first
  count-to_list q e ds h =
      let (rows, p, k) = call_returned (run q e) _ h in
      (
        rw (p, count_rows_lem 0 rows ds k) (ap ok (omega arith)),
        rw (p, first_row_lem rows ds k) refl,
      )
