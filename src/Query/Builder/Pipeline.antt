-- ===== src/Query/Builder/Pipeline.antt =====
-- A query with filters, `skip` and `limit` against the same steps on lists.
use jsonpy_sql.Prelude.{
  ℕ, zero, suc, ◌≡◌, refl, ap, String, Bool, some, List, [], ◌∷◌, take, drop, filter_by,
}
use jsonpy_sql.Python.Value.{Document}
use jsonpy_sql.Python.Result.{ok}
use jsonpy_sql.Storage.SortedDict.{SortedDict}
use jsonpy_sql.Storage.Engine as Engine
use jsonpy_sql.Storage.Engine.{Engine}
use jsonpy_sql.Query.Planner.{Predicate, first_access, fail, plan}
use jsonpy_sql.Query.Rows as Rows
use jsonpy_sql.Query.Rows.{of_list}
use jsonpy_sql.Query.Executor.{passes, execute, finish, scan_field, project}
use jsonpy_sql.Query.Executor.Slicing.{take_rows, drop_rows, slice_lem}
use jsonpy_sql.Query.Executor.Filters.{apply_predicates_lem}
use jsonpy_sql.Query.Builder.{QueryBuilder, no_clauses, build_plan, run, to_list}

pub to_list-of_list : (ds : List Document) → Rows.to_list (of_list ds) ≡ ok ds
unfolding Rows.to_list
to_list-of_list [] = refl
to_list-of_list (d ∷ ds) = rw (to_list-of_list ds)

drop_rows-of_list : (n : ℕ) (ds : List Document) → drop_rows n (of_list ds) ≡ of_list (drop n ds)
drop_rows-of_list zero ds = refl
drop_rows-of_list (suc n) [] = refl
drop_rows-of_list (suc n) (d ∷ ds) = drop_rows-of_list n ds

take_rows-of_list : (n : ℕ) (ds : List Document) → take_rows n (of_list ds) ≡ of_list (take n ds)
take_rows-of_list zero ds = refl
take_rows-of_list (suc n) [] = refl
take_rows-of_list (suc n) (d ∷ ds) = ap (Rows.row d) (take_rows-of_list n ds)

-- The builder with these filters, this `skip` and this `limit`
abbrev pub page : String → List String → ℕ → ℕ → List Predicate → ℕ → ℕ → QueryBuilder
page col indexed size threshold ps s n = record {
  collection = col;
  indexed_fields = indexed;
  collection_size = size;
  hash_join_threshold = threshold;
  join_collection_size = 0;
  clauses = record no_clauses { predicates = ps; limit = some n; skip = s };
}

module _ {S : Type 0} ⦃sd : SortedDict S⦄ where
  -- If the collection can be scanned, no index serves the first predicate, and the predicates decide
  -- every document, then a query with these predicates, a `skip` and a positive `limit` yields the
  -- documents of the scan that pass them all, without the first `skip`, and at most `limit` of them.
  pub to_list-page :
      (col : String) (indexed : List String) (size threshold s n : ℕ) (ps : List Predicate)
      (f : Document → Bool) (docs : List Document) (e : Engine S)
      → Engine.scan col e ≡ ok docs
      → first_access ps indexed ≡ ok fail
      → ((d : Document) → passes ps d ≡ ok (f d))
      → to_list (page col indexed size threshold ps s (suc n)) e
        ≡ ok (take (suc n) (drop s (filter_by f docs)))
  unfolding to_list run build_plan plan execute finish scan_field project
  to_list-page col indexed size threshold s n ps f docs e scanned full decides =
      rw
        (
          full,
          scanned,
          apply_predicates_lem ps f docs decides,
          slice_lem,
          drop_rows-of_list s (filter_by f docs),
          take_rows-of_list (suc n) (drop s (filter_by f docs)),
        )
        (to_list-of_list (take (suc n) (drop s (filter_by f docs))))
