-- ===== src/Query/Builder.antt =====
-- query/builder.py: `QueryBuilder`. The clause methods return a changed copy.
pub mod Results
pub mod Pipeline
use jsonpy_sql.Prelude.{
  ℕ, zero, suc, String, Bool, true, false, Option, none, some, List, [], ◌∷◌, ◌++◌,
}
use jsonpy_sql.Python.Dict as D
use jsonpy_sql.Python.Dict.{Dict, string_key}
use jsonpy_sql.Python.Value.{Value, value_key, Document}
use jsonpy_sql.Python.Result.{Result, ok, err, key_error, ◌>>=◌}
use jsonpy_sql.Storage.SortedDict.{SortedDict}
use jsonpy_sql.Storage.Engine.{Engine}
use jsonpy_sql.Query.Models.{AggSpec, QueryPlan}
use jsonpy_sql.Query.Planner.{Predicate, plan}
use jsonpy_sql.Query.Rows.{Rows, stop, raise, row}
use jsonpy_sql.Query.Rows as Rows
use jsonpy_sql.Query.Executor as Executor
use jsonpy_sql.Query.Executor.{Clauses}

-- The builder holds no engine here: the calls that run the query are given one.
pub record QueryBuilder : Type 0 where
  pub collection : String
  pub indexed_fields : List String
  pub collection_size : ℕ
  pub hash_join_threshold : ℕ
  pub join_collection_size : ℕ
  pub clauses : Clauses

abbrev pub no_clauses : Clauses
no_clauses = record {
  predicates = [];
  join_collection = none;
  join_predicate = none;
  order_by_field = none;
  order_descending = false;
  limit = none;
  skip = 0;
  projection = none;
  group_fields = [];
  aggregates = [];
}

abbrev pub new_builder : String → List String → ℕ → ℕ → QueryBuilder
new_builder collection indexed_fields collection_size hash_join_threshold = record {
  collection = collection;
  indexed_fields = indexed_fields;
  collection_size = collection_size;
  hash_join_threshold = hash_join_threshold;
  join_collection_size = 0;
  clauses = no_clauses;
}

abbrev pub with_clauses : Clauses → QueryBuilder → QueryBuilder
with_clauses c q = record q { clauses = c }

unfoldable pub where_ : Predicate → QueryBuilder → QueryBuilder
where_ p q = with_clauses (record q.clauses { predicates = q.clauses.predicates ++ (p ∷ []) }) q

unfoldable pub join : String → (Document → Document → Result Bool) → ℕ → QueryBuilder → QueryBuilder
join collection on size q = record q {
  join_collection_size = size;
  clauses = record q.clauses { join_collection = some collection; join_predicate = some on };
}

unfoldable pub order_by : String → Bool → QueryBuilder → QueryBuilder
order_by f descending q =
    with_clauses (record q.clauses { order_by_field = some f; order_descending = descending }) q

unfoldable pub limit : ℕ → QueryBuilder → QueryBuilder
limit n q = with_clauses (record q.clauses { limit = some n }) q

unfoldable pub skip : ℕ → QueryBuilder → QueryBuilder
skip n q = with_clauses (record q.clauses { skip = n }) q

unfoldable pub select : (Document → Result Document) → QueryBuilder → QueryBuilder
select projection q = with_clauses (record q.clauses { projection = some projection }) q

unfoldable pub group_by : List String → QueryBuilder → QueryBuilder
group_by fields q = with_clauses (record q.clauses { group_fields = fields }) q

-- `{**self._aggregates, **named_specs}`
abbrev pub set_all : Dict String AggSpec → Dict String AggSpec → Dict String AggSpec
set_all old [] = old
set_all old ((name, spec) ∷ specs) = set_all (D.set name spec old) specs

unfoldable pub aggregate : Dict String AggSpec → QueryBuilder → QueryBuilder
aggregate specs q =
    with_clauses (record q.clauses { aggregates = set_all q.clauses.aggregates specs }) q

-- `x is not None`
abbrev pub is_some {ℓ} : {A : Type ℓ} → Option A → Bool
is_some none = false
is_some (some a) = true

-- `bool(self._aggregates)`
abbrev pub is_filled : Dict String AggSpec → Bool
is_filled [] = false
is_filled (_ ∷ _) = true

unfoldable pub build_plan : QueryBuilder → Result QueryPlan
build_plan q =
    let c = q.clauses in
    plan q.collection c.predicates c.join_collection q.join_collection_size
      (is_some c.order_by_field) (is_some c.limit) (is_some c.projection) (is_filled c.aggregates)
      (record {
        indexed = q.indexed_fields;
        collection_size = q.collection_size;
        threshold = q.hash_join_threshold;
      })

-- The first row, if there is one
unfoldable pub first_row : Rows → Result (Option Document)
first_row stop = ok none
first_row (raise x) = err x
first_row (row d rows) = ok (some d)

-- `sum(1 for _ in rows)`
unfoldable pub count_rows : ℕ → Rows → Result ℕ
count_rows n stop = ok n
count_rows n (raise x) = err x
count_rows n (row d rows) = count_rows (suc n) rows

-- `{doc[key]: doc for doc in rows}`, from the entries so far
unfoldable pub dict_rows : String → Dict Value Document → Rows → Result (Dict Value Document)
dict_rows key out stop = ok out
dict_rows key out (raise x) = err x
dict_rows key out (row d rows) = elim (D.get key d) [
  | none ↦ err key_error
  | some v ↦ dict_rows key (D.set v d out) rows
]

module _ {S : Type 0} ⦃sd : SortedDict S⦄ where
  -- `_execute`: the plan is made, and may fail, at the call.
  unfoldable pub run : QueryBuilder → Engine S → Result Rows
  run q e = do p ← build_plan q; ok (Executor.execute p q.clauses e)

  unfoldable pub to_list : QueryBuilder → Engine S → Result (List Document)
  to_list q e = do rows ← run q e; Rows.to_list rows

  unfoldable pub to_dict : String → QueryBuilder → Engine S → Result (Dict Value Document)
  to_dict key q e = do rows ← run q e; dict_rows key [] rows

  unfoldable pub first : QueryBuilder → Engine S → Result (Option Document)
  first q e = do rows ← run q e; first_row rows

  unfoldable pub count : QueryBuilder → Engine S → Result ℕ
  count q e = do rows ← run q e; count_rows 0 rows

-- `explain`
abbrev pub explain : QueryBuilder → Result QueryPlan
explain q = build_plan q
