-- ===== src/Query/Models.antt =====
-- query/models.py: plans, and the specifications of aggregates. `AvgAgg`, whose result is a float,
-- is not modelled.
use jsonpy_sql.Prelude.{
  ℕ, String, Bool, true, false, Option, none, some, List, [], ◌∷◌, length, filter_by, not,
}
use jsonpy_sql.Python.Int.{ℤ, pos, ◌+ℤ◌}
use jsonpy_sql.Python.Value.{Value, null, bool, int, int_of_bool, is_none, value_le, Document}
use jsonpy_sql.Python.Result.{Result, ok, err, type_error, ◌>>=◌}

pub data ScanType : Type 0 where
  index_lookup range_scan full_scan : ScanType

pub data JoinStrategy : Type 0 where
  nested_loop hash_join : JoinStrategy

-- The `None` of `index_value`, `index_low` and `index_high` is the value `null`.
pub record QueryPlan : Type 0 where
  pub collection : String
  pub scan_type : ScanType
  pub index_field : Option String
  pub index_value : Value
  pub index_low : Value
  pub index_high : Value
  pub predicate_count : ℕ
  pub join_strategy : Option JoinStrategy
  pub join_collection : Option String
  pub has_order_by : Bool
  pub has_limit : Bool
  pub has_projection : Bool
  pub has_aggregation : Bool

pub data AggSpec : Type 0 where
  count_agg : AggSpec
  sum_agg min_agg max_agg : String → AggSpec

-- `a < b`, which raises a `TypeError` between types with no common order.
abbrev pub value_lt : Value → Value → Result Bool
value_lt a b = elim (value_le b a) [ none ↦ err type_error | some b ↦ ok (not b) ]

abbrev pub number : Value → Result ℤ
number (bool b) = ok (int_of_bool b)
number (int n) = ok n
number v = err type_error

-- `sum(vs)`: an empty sum is 0.
unfoldable pub sum_from : ℤ → List Value → Result ℤ
sum_from total [] = ok total
sum_from total (v ∷ vs) = do n ← number v; sum_from (total +ℤ n) vs

-- `min`: a later value is taken only if it is less.
unfoldable pub min_from : Value → List Value → Result Value
min_from best [] = ok best
min_from best (v ∷ vs) = do
  less ← value_lt v best
  elim less [ true ↦ min_from v vs | false ↦ min_from best vs ]

unfoldable pub max_from : Value → List Value → Result Value
max_from best [] = ok best
max_from best (v ∷ vs) = do
  more ← value_lt best v
  elim more [ true ↦ max_from v vs | false ↦ max_from best vs ]

abbrev pub non_null : List Value → List Value
non_null values = filter_by (λ v. not (is_none v)) values

-- `CountAgg.compute`
abbrev pub compute_count : List Document → Value
compute_count values = int (pos (length values))

-- `SumAgg.compute`
unfoldable pub compute_sum : List Value → Result Value
compute_sum values = do n ← sum_from (pos 0) (non_null values); ok (int n)

abbrev pub min_of : List Value → Result Value
min_of [] = ok null
min_of (v ∷ vs) = min_from v vs

abbrev pub max_of : List Value → Result Value
max_of [] = ok null
max_of (v ∷ vs) = max_from v vs

-- `MinAgg.compute`
unfoldable pub compute_min : List Value → Result Value
compute_min values = min_of (non_null values)

-- `MaxAgg.compute`
unfoldable pub compute_max : List Value → Result Value
compute_max values = max_of (non_null values)
