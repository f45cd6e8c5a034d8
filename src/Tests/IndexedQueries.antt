-- ===== src/Tests/IndexedQueries.antt =====
-- The theorem on a query that an index serves applied to the collection `users`.
use mathlib.Core.List.{Memᴰ}
use text.Mathlib.Text.{◌==◌ as str_eq}
use jsonpy_sql.Prelude.{
  ◌≡◌, refl, subst, String, Bool, true, false, none, some, List, [], ◌∷◌, all_of, if◌then◌else◌,
}
use jsonpy_sql.Python.Dict as D
use jsonpy_sql.Python.Dict.{string_key}
use jsonpy_sql.Python.Value.{str, value_eq, truthy, Document, field}
use jsonpy_sql.Python.Result.{ok}
use jsonpy_sql.Storage.DocumentStore as Store
use jsonpy_sql.Storage.Engine.{get, require, lock}
use jsonpy_sql.Query.Planner.{equality_access}
use jsonpy_sql.Query.Planner.Soundness.{eval}
use jsonpy_sql.Query.Builder.{new_builder, where_, to_list}
use jsonpy_sql.Query.IndexedQuery.{lambda_of, indexed_query_complete}
use jsonpy_sql.Tests.Instances.{entry_list}
use jsonpy_sql.Tests.Collections.{ann, users}
use jsonpy_sql.Tests.Engines.{users-IsReady}
use jsonpy_sql.Tests.Indexes.{users-IsIndexed, has_name}
use jsonpy_sql.Tests.Queries.{is_ann, raising, ann_plan}

abbrev pub named_ann : Document → Bool
named_ann d = value_eq (field "name" d) (str "Ann")

pub read_ann : get "users" "1" users ≡ ok (some ann)
unfolding get require lock Store.get Store.iter_lines Store.get_loop Store.get_step Store.parse
    Store.strip_id D.get D.del D.set truthy
read_ann = refl

picked : (b : Bool) (c : Document) → ok (if b then some ann else none) ≡ ok (some c) → ann ≡ c
picked true c h = cc
picked false c h = absurd (cc)

pub only_ann : (i : String) (c : Document) → get "users" i users ≡ ok (some c) → ann ≡ c
unfolding get require lock Store.get Store.iter_lines Store.get_loop Store.get_step Store.parse
    Store.strip_id D.get D.del D.set truthy
only_ann i c h = picked (str_eq "1" i) c h

ann_decided : (lambda_of raising "x" is_ann).test ann ≡ ok (named_ann ann)
unfolding eval truthy D.get
ann_decided = refl

pub decided :
    (i : String) (c : Document)
    → get "users" i users ≡ ok (some c)
    → (lambda_of raising "x" is_ann).test c ≡ ok (named_ann c)
decided i c h =
    subst (λ d. (lambda_of raising "x" is_ann).test d ≡ ok (named_ann d)) (only_ann i c h)
      ann_decided

pub is_named : named_ann ann ≡ true
unfolding D.get
is_named = refl

indexed_query_complete_example :
    (ds : List Document) × (to_list
        (where_ (lambda_of raising "x" is_ann) (new_builder "users" ("name" ∷ []) 1 10000))
        users
      ≡ ok ds)
    × (all_of named_ann ds ≡ true)
    × Memᴰ ann ds
indexed_query_complete_example =
    indexed_query_complete raising "users" "x" "name" "Ann" "1" is_ann named_ann ("name" ∷ []) 1
      10000 (equality_access ("name", str "Ann")) users ann decided ann_plan refl refl refl refl
      users-IsReady users-IsIndexed has_name read_ann is_named
