-- ===== src/Query/Executor.antt =====
-- query/executor.py: `QueryExecutor` over an engine whose state does not change while the query
-- runs. `skip` and `limit` are not negative.
pub mod Slicing
pub mod Filters
pub mod Joins
pub mod Sorting
use jsonpy_sql.Prelude.{
  ℕ, suc, String, Bool, true, false, Option, none, some, List, [], ◌∷◌, not, ltb, leb,
  if◌then◌else◌, ◌&&◌, map,
}
use jsonpy_sql.Python.Dict as D
use jsonpy_sql.Python.Dict.{Dict, string_key}
use jsonpy_sql.Python.Value.{Value, str, is_none, value_eq, Document, field}
use jsonpy_sql.Python.Sort.{list_sort}
use jsonpy_sql.Python.Result.{Result, ok, err, ◌>>=◌}
use jsonpy_sql.Storage.SortedDict.{SortedDict}
use jsonpy_sql.Storage.Engine as Engine
use jsonpy_sql.Storage.Engine.{Engine}
use jsonpy_sql.Query.Models.{
  AggSpec, ScanType, index_lookup, range_scan, full_scan, JoinStrategy, hash_join, QueryPlan,
  value_lt,
}
use jsonpy_sql.Query.Planner.{Predicate}
use jsonpy_sql.Query.Rows.{Rows, stop, raise, row, of_list, of_result, append, to_list, row_if}
use jsonpy_sql.Query.Aggregates.{apply_aggregates}

-- `{**left, **right}`
unfoldable pub merge : Document → Document → Document
merge left [] = left
merge left ((f, v) ∷ right) = merge (D.set f v left) right

-- The arguments of `execute` besides the plan
pub record Clauses : Type 0 where
  pub predicates : List Predicate
  pub join_collection : Option String
  pub join_predicate : Option (Document → Document → Result Bool)
  pub order_by_field : Option String
  pub order_descending : Bool
  pub limit : Option ℕ
  pub skip : ℕ
  pub projection : Option (Document → Result Document)
  pub group_fields : List String
  pub aggregates : Dict String AggSpec

-- `all(p(doc) for p in predicates)`
unfoldable pub passes : List Predicate → Document → Result Bool
passes [] doc = ok true
passes (p ∷ ps) doc = p.test doc >>= λ b. elim b [ true ↦ passes ps doc | false ↦ ok false ]

unfoldable pub apply_predicates : List Predicate → Rows → Rows
apply_predicates ps stop = stop
apply_predicates ps (raise x) = raise x
apply_predicates ps (row doc docs) = row_if (passes ps doc) doc (apply_predicates ps docs)

-- The key `(d.get(field) is None, d.get(field))` of one document is less than another's.
unfoldable pub key_lt : Value → Value → Result Bool
key_lt a b = elim (is_none a) [
  | true ↦ ok false
  | false ↦ elim (is_none b) [ true ↦ ok true | false ↦ value_lt a b ]
]

abbrev pub document_lt : String → Document → Document → Result Bool
document_lt f a b = key_lt (field f a) (field f b)

-- `materialized.sort(key=..., reverse=descending)`
unfoldable pub sorted : String → Bool → List Document → Result (List Document)
sorted f descending materialized = list_sort (document_lt f) descending materialized

unfoldable pub sort : String → Bool → Rows → Rows
sort f descending docs = of_result (to_list docs >>= λ ds. sorted f descending ds)

-- `limit is not None and count >= limit`
abbrev pub is_full : Option ℕ → ℕ → Bool
is_full none count = false
is_full (some n) count = leb n count

-- The loop of `_slice`, from its counters
unfoldable pub slice_from : ℕ → Option ℕ → ℕ → ℕ → Rows → Rows
slice_from skip limit skipped count stop = stop
slice_from skip limit skipped count (raise x) = raise x
slice_from skip limit skipped count (row doc docs) = elim (ltb skipped skip) [
  | true ↦ slice_from skip limit (suc skipped) count docs
  | false ↦ row doc (elim (is_full limit (suc count)) [
    | true ↦ stop
    | false ↦ slice_from skip limit skipped (suc count) docs
  ])
]

unfoldable pub slice : ℕ → Option ℕ → Rows → Rows
slice skip limit docs = slice_from skip limit 0 0 docs

unfoldable pub project : Option (Document → Result Document) → Rows → Rows
project none docs = docs
project (some f) stop = stop
project (some f) (raise x) = raise x
project (some f) (row doc docs) = elim (f doc) [
  | ok doc' ↦ row doc' (project (some f) docs)
  | err x ↦ raise x
]

-- The pairs of one left document with the right ones, merged where the predicate holds
unfoldable pub matches : (Document → Document → Result Bool) → Document → Rows → Rows
matches on left stop = stop
matches on left (raise x) = raise x
matches on left (row right rights) =
    row_if (on left right) (merge left right) (matches on left rights)

-- The loop of `_hash_join` over the left documents
unfoldable pub probe : (Document → Document → Result Bool) → List Document → Rows → Rows
probe on rights stop = stop
probe on rights (raise x) = raise x
probe on rights (row left lefts) = append (matches on left (of_list rights)) (probe on rights lefts)

abbrev pub or_bound : String → Value → Value
or_bound s v = if is_none v then str s else v

module _ {S : Type 0} where
  -- `for doc_id in doc_ids`: the documents that are there
  unfoldable pub fetch : String → List String → Engine S → Rows
  fetch col [] e = stop
  fetch col (doc_id ∷ ids) e = elim (Engine.get col doc_id e) [
    | err x ↦ raise x
    | ok none ↦ fetch col ids e
    | ok (some doc) ↦ row doc (fetch col ids e)
  ]

  abbrev pub fetch_all : String → Result (List String) → Engine S → Rows
  fetch_all col (ok ids) e = fetch col ids e
  fetch_all col (err x) e = raise x

  unfoldable pub nested_loop_join :
      Rows → String → (Document → Document → Result Bool) → Engine S → Rows
  nested_loop_join stop right on e = stop
  nested_loop_join (raise x) right on e = raise x
  nested_loop_join (row left lefts) right on e =
      append (matches on left (of_result (Engine.scan right e))) (nested_loop_join lefts right on e)

  unfoldable pub hash_join_ : Rows → String → (Document → Document → Result Bool) → Engine S → Rows
  hash_join_ lefts right on e = elim (Engine.scan right e) [
    | ok rights ↦ probe on rights lefts
    | err x ↦ raise x
  ]

  unfoldable pub join :
      Rows → QueryPlan → String → (Document → Document → Result Bool) → Engine S → Rows
  join lefts plan right on e = elim plan.join_strategy [
    | some hash_join ↦ hash_join_ lefts right on e
    | _ ↦ nested_loop_join lefts right on e
  ]

  abbrev pub join_if :
      Rows
      → QueryPlan
      → Option String
      → Option (Document → Document → Result Bool)
      → Engine S
      → Rows
  join_if docs plan (some right) (some on) e = join docs plan right on e
  join_if docs plan _ _ e = docs

abbrev pub sort_if : Option String → Bool → Rows → Rows
sort_if none descending docs = docs
sort_if (some f) descending docs = sort f descending docs

-- The end of `execute`: with aggregates no projection is applied.
unfoldable pub finish : Clauses → Rows → Rows
finish c docs = elim c.aggregates [
  | [] ↦
      project c.projection (slice c.skip c.limit (sort_if c.order_by_field c.order_descending docs))
  | _ ∷ _ ↦ slice c.skip c.limit (
      sort_if c.order_by_field c.order_descending
        (of_result (to_list docs >>= λ ds. apply_aggregates ds c.group_fields c.aggregates)))
]

-- `"\uffff" * 10`
abbrev pub last_text : String
last_text = "\u{ffff}\u{ffff}\u{ffff}\u{ffff}\u{ffff}\u{ffff}\u{ffff}\u{ffff}\u{ffff}\u{ffff}"

module _ {S : Type 0} ⦃sd : SortedDict S⦄ where
  unfoldable pub scan_field : QueryPlan → ScanType → Option String → Engine S → Rows
  scan_field plan index_lookup (some f) e =
      fetch_all plan.collection (Engine.lookup plan.collection f plan.index_value e) e
  scan_field plan range_scan (some f) e =
      fetch_all plan.collection
        (Engine.range_scan plan.collection f (or_bound "" plan.index_low)
          (or_bound last_text plan.index_high) e)
        e
  scan_field plan _ _ e = of_result (Engine.scan plan.collection e)

  abbrev pub scan : QueryPlan → Engine S → Rows
  scan plan e = scan_field plan plan.scan_type plan.index_field e

  unfoldable pub execute : QueryPlan → Clauses → Engine S → Rows
  execute plan c e = finish c (
      join_if (apply_predicates c.predicates (scan plan e)) plan c.join_collection c.join_predicate
        e)
