-- ===== src/Query/Executor/Filters.antt =====
-- `_apply_predicates` against a filter.
use jsonpy_sql.Prelude.{◌≡◌, refl, Bool, List, [], ◌∷◌, filter_by, arith}
use jsonpy_sql.Python.Value.{Document}
use jsonpy_sql.Python.Result.{ok}
use jsonpy_sql.Query.Planner.{Predicate}
use jsonpy_sql.Query.Rows.{of_list}
use jsonpy_sql.Query.Executor.{passes, apply_predicates}

-- If every predicate decides every document, the rows that pass all of them come through, in order.
pub apply_predicates_lem :
    (ps : List Predicate) (f : Document → Bool) (ds : List Document)
    → ((d : Document) → passes ps d ≡ ok (f d))
    → apply_predicates ps (of_list ds) ≡ of_list (filter_by f ds)
unfolding apply_predicates
apply_predicates_lem ps f [] h = refl
apply_predicates_lem ps f (d ∷ ds) h = ground (arith, h d, apply_predicates_lem ps f ds h)
