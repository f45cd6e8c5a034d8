-- ===== src/Tests/Queries.antt =====
-- The theorems on queries applied to queries over the collection `users`.
use jsonpy_sql.Prelude.{
  ◌≡◌, refl, String, Bool, true, false, Option, none, some, [], ◌∷◌, if◌then◌else◌, filter_by, not,
  all_of, List, inr,
}
use jsonpy_sql.Python.Dict as D
use jsonpy_sql.Python.Dict.{string_key}
use jsonpy_sql.Python.Int.{pos}
use jsonpy_sql.Python.Value.{
  Value, null, bool, int, str, value_eq, value_le, truthy, is_none, Document, field,
}
use jsonpy_sql.Python.Result.{Result, ok, err, key_error, ◌>>=◌}
use jsonpy_sql.Storage.DocumentStore as Store
use jsonpy_sql.Storage.Engine.{scan, require, lock}
use jsonpy_sql.Query.Models.{QueryPlan, full_scan, nested_loop, hash_join}
use jsonpy_sql.Query.Planner.{
  Expr, constant, name, subscript, compare1, compare2, op_eq, op_lte, Predicate, equality_access,
  range_access, parse_predicate, parse_body, try_equality, try_range, match_equality, indexed_field,
  extract_subscript_field, extract_literal,
}
use jsonpy_sql.Query.Planner.Soundness.{eval, Holds}
use jsonpy_sql.Query.Planner.{first_access, fail}
use jsonpy_sql.Prelude.{take, drop}
use jsonpy_sql.Query.Rows.{of_list}
use jsonpy_sql.Python.Sort.{list_sort, insert_sorted}
use jsonpy_sql.Query.Executor.{join, sorted, key_lt, passes}
use jsonpy_sql.Query.Executor.Joins.{join_strategy_lem}
use jsonpy_sql.Query.Executor.Sorting.{IsOrdered, fits_number, sorted_lem}
use jsonpy_sql.Query.Builder as Builder
use jsonpy_sql.Query.Builder.{QueryBuilder, new_builder, build_plan, run}
use jsonpy_sql.Query.Builder.Pipeline.{page, to_list-page}
use jsonpy_sql.Tests.Instances.{entry_list}
use jsonpy_sql.Tests.Collections.{ann, bob, ann_stored, users}

-- `x["name"] == "Ann"` and `10 <= x["age"] <= 50`
abbrev pub is_ann : Expr
is_ann = compare1 (subscript (name "x") (constant (str "name"))) op_eq (constant (str "Ann"))

abbrev middle_aged : Expr
middle_aged =
    compare2 (constant (int (pos 10))) op_lte (subscript (name "x") (constant (str "age"))) op_lte
      (constant (int (pos 50)))

-- Every other node is taken to raise.
abbrev pub raising : Expr → Document → Result Value
raising e d = err key_error

pub ann_plan :
    parse_predicate (some (record { args = "x" ∷ []; body = is_ann })) ("name" ∷ [])
    ≡ ok (equality_access ("name", str "Ann"))
unfolding parse_predicate parse_body try_equality match_equality indexed_field
    extract_subscript_field extract_literal
ann_plan = refl

ann-Holds : Holds raising "x" is_ann ann_stored
unfolding eval truthy D.get
ann-Holds = (bool true, refl, refl)

age_plan :
    parse_predicate (some (record { args = "x" ∷ []; body = middle_aged })) ("age" ∷ [])
    ≡ ok (range_access (some ("age", int (pos 10), int (pos 50))))
unfolding parse_predicate parse_body try_equality try_range indexed_field extract_subscript_field
    extract_literal
age_plan = refl

age-Holds : Holds raising "x" middle_aged ann_stored
unfolding eval truthy value_le D.get
age-Holds = (bool true, refl, refl)

abbrev plan_for : Option String → QueryPlan
plan_for c = record {
  collection = "users";
  scan_type = full_scan;
  index_field = none;
  index_value = null;
  index_low = null;
  index_high = null;
  predicate_count = 0;
  join_strategy = none;
  join_collection = c;
  has_order_by = false;
  has_limit = false;
  has_projection = false;
  has_aggregation = false;
}

abbrev hash_plan : QueryPlan
hash_plan = record (plan_for (some "users")) { join_strategy = some hash_join }

abbrev loop_plan : QueryPlan
loop_plan = record (plan_for (some "users")) { join_strategy = some nested_loop }

scanned_users : scan "users" users ≡ ok (ann_stored ∷ [])
unfolding scan require lock Store.scan Store.iter_lines Store.scan_loop Store.scan_step
    Store.live_docs Store.parse D.get D.set truthy
scanned_users = refl

abbrev same_name : Document → Document → Result Bool
same_name l r = ok (value_eq (field "name" l) (field "name" r))

join_strategy_lem_example :
    join (of_list (ann ∷ bob ∷ [])) hash_plan "users" same_name users
    ≡ join (of_list (ann ∷ bob ∷ [])) loop_plan "users" same_name users
join_strategy_lem_example =
    join_strategy_lem (of_list (ann ∷ bob ∷ [])) hash_plan loop_plan "users" same_name users
      (ann_stored ∷ []) scanned_users

by_age : sorted "age" false (ann ∷ bob ∷ []) ≡ ok (bob ∷ ann ∷ [])
unfolding sorted list_sort insert_sorted key_lt value_le D.get
by_age = refl

by_age_descending : sorted "age" true (bob ∷ ann ∷ []) ≡ ok (ann ∷ bob ∷ [])
unfolding sorted list_sort insert_sorted key_lt value_le D.get
by_age_descending = refl

ages_are_numbers : all_of (λ d. fits_number (field "age" d)) (ann ∷ bob ∷ []) ≡ true
unfolding D.get
ages_are_numbers = refl

sorted_lem_example :
    (zs : List Document) × (sorted "age" true (ann ∷ bob ∷ []) ≡ ok zs)
    × IsOrdered "age" true zs
    × ((k : Value)
        → filter_by (λ d. value_eq (field "age" d) k) zs
          ≡ filter_by (λ d. value_eq (field "age" d) k) (ann ∷ bob ∷ []))
sorted_lem_example = sorted_lem "age" true (ann ∷ bob ∷ []) (inr ages_are_numbers)

abbrev has_age : Document → Bool
has_age d = not (is_none (field "age" d))

abbrev aged : Predicate
aged = record { source = none; test = λ d. ok (has_age d) }

aged_decides : (d : Document) → passes (aged ∷ []) d ≡ ok (if has_age d then true else false)
unfolding passes
aged_decides d = decide (has_age d)
  where
    decide :
        (b : Bool)
        → (ok b >>= λ c. elim c [ true ↦ ok true | false ↦ ok false ])
          ≡ ok (if b then true else false)
    decide true = refl
    decide false = refl

aged_full : first_access (aged ∷ []) ("age" ∷ []) ≡ ok fail
unfolding parse_predicate
aged_full = refl

to_list-page_example :
    Builder.to_list (page "users" ("age" ∷ []) 0 10000 (aged ∷ []) 0 1) users
    ≡ ok (take 1 (drop 0 (filter_by (λ d. if has_age d then true else false) (ann_stored ∷ []))))
to_list-page_example =
    to_list-page "users" ("age" ∷ []) 0 10000 0 0 (aged ∷ [])
      (λ d. if has_age d then true else false) (ann_stored ∷ []) users scanned_users aged_full
      aged_decides
