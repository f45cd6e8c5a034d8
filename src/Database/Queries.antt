-- ===== src/Database/Queries.antt =====
-- A query without clauses, through the database.
use jsonpy_sql.Prelude.{◌≡◌, refl, ◌∙◌, ap, none, List, [], ◌∷◌}
use jsonpy_sql.Python.Value.{Document}
use jsonpy_sql.Python.Result.{Result, ok, err}
use jsonpy_sql.Storage.SortedDict.{SortedDict}
use jsonpy_sql.Storage.Engine as Engine
use jsonpy_sql.Storage.Engine.{Engine}
use jsonpy_sql.Query.Planner.{plan}
use jsonpy_sql.Query.Rows as Rows
use jsonpy_sql.Query.Rows.{of_list, of_result}
use jsonpy_sql.Query.Executor.{passes, apply_predicates, execute, finish, scan_field, project}
use jsonpy_sql.Query.Executor.Slicing.{slice_lem}
use jsonpy_sql.Query.Builder as Builder
use jsonpy_sql.Query.Builder.{build_plan, run}
use jsonpy_sql.Database.Queryable.{QueryableCollection, name_of, builder, all}

pass_all : (ds : List Document) → Rows.to_list (apply_predicates [] (of_list ds)) ≡ ok ds
unfolding apply_predicates passes Rows.to_list
pass_all [] = refl
pass_all (d ∷ ds) = rw (pass_all ds)

scanned : (r : Result (List Document)) → Rows.to_list (apply_predicates [] (of_result r)) ≡ r
unfolding apply_predicates Rows.to_list
scanned (ok ds) = pass_all ds
scanned (err x) = refl

module _ {S : Type 0} {M : Type 0} ⦃sd : SortedDict S⦄ where
  -- `all` of a collection returns, or raises, what the engine's `scan` of it does.
  pub all-scan :
      (q : QueryableCollection M) (e : Engine S) → all q e ≡ Engine.scan (name_of q.col) e
  unfolding all builder Builder.to_list run build_plan plan execute finish scan_field project
  all-scan q e =
      ap Rows.to_list
        (slice_lem 0 none (apply_predicates [] (of_result (Engine.scan (name_of q.col) e))))
      ∙ scanned (Engine.scan (name_of q.col) e)
