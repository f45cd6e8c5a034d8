-- ===== src/Tests/RangeQueries.antt =====
-- A query of a range of names in the collection `users`.
use mathlib.Core.List.{Memᴰ}
use jsonpy_sql.Prelude.{◌≡◌, refl, subst, String, Bool, true, some, List, [], ◌∷◌, ◌&&◌, all_of}
use jsonpy_sql.Python.Dict as D
use jsonpy_sql.Python.Dict.{string_key}
use jsonpy_sql.Python.Value.{str, str_le, value_le, to_str, truthy, Document, field}
use jsonpy_sql.Python.Result.{ok}
use jsonpy_sql.Storage.Engine.{get}
use jsonpy_sql.Query.Planner.{
  Expr, constant, name, subscript, compare2, op_lte, range_access, parse_predicate, parse_body,
  try_equality, try_range, indexed_field, extract_subscript_field, extract_literal,
}
use jsonpy_sql.Query.Planner.Soundness.{eval}
use jsonpy_sql.Query.Builder.{new_builder, where_, to_list}
use jsonpy_sql.Query.IndexedQuery.{lambda_of}
use jsonpy_sql.Query.RangeQuery.{range_query_complete}
use jsonpy_sql.Tests.Instances.{entry_list}
use jsonpy_sql.Tests.Collections.{ann, users}
use jsonpy_sql.Tests.Engines.{users-IsReady}
use jsonpy_sql.Tests.Indexes.{users-IsIndexed, has_name}
use jsonpy_sql.Tests.Queries.{raising}
use jsonpy_sql.Tests.IndexedQueries.{read_ann, only_ann}

-- `"A" <= x["name"] <= "C"`
abbrev in_range : Expr
in_range =
    compare2 (constant (str "A")) op_lte (subscript (name "x") (constant (str "name"))) op_lte
      (constant (str "C"))

abbrev between : Document → Bool
between d = str_le "A" (to_str (field "name" d)) && str_le (to_str (field "name" d)) "C"

range_plan :
    parse_predicate (some (record { args = "x" ∷ []; body = in_range })) ("name" ∷ [])
    ≡ ok (range_access (some ("name", str "A", str "C")))
unfolding parse_predicate parse_body try_equality try_range indexed_field extract_subscript_field
    extract_literal
range_plan = refl

ann_decided : (lambda_of raising "x" in_range).test ann ≡ ok (between ann)
unfolding eval truthy value_le to_str D.get
ann_decided = refl

decided :
    (i : String) (c : Document)
    → get "users" i users ≡ ok (some c)
    → (lambda_of raising "x" in_range).test c ≡ ok (between c)
decided i c h =
    subst (λ d. (lambda_of raising "x" in_range).test d ≡ ok (between d)) (only_ann i c h)
      ann_decided

is_between : between ann ≡ true
unfolding D.get to_str
is_between = refl

names_between :
    (ds : List Document) × (to_list
        (where_ (lambda_of raising "x" in_range) (new_builder "users" ("name" ∷ []) 1 10000))
        users
      ≡ ok ds)
    × (all_of between ds ≡ true)
    × Memᴰ ann ds
names_between =
    range_query_complete raising "users" "x" "name" "A" "C" "1" in_range between ("name" ∷ []) 1
      10000 (range_access (some ("name", str "A", str "C"))) users ann decided range_plan refl refl
      refl refl refl users-IsReady users-IsIndexed has_name read_ann is_between
