-- ===== src/Tests/Aggregations.antt =====
-- An aggregation of three documents by name.
use mathlib.Core.List.{Memᴰ}
use jsonpy_sql.Prelude.{◌≡◌, refl, true, String, List, [], ◌∷◌}
use jsonpy_sql.Python.Dict as D
use jsonpy_sql.Python.Dict.{Dict, string_key, IsDict}
use jsonpy_sql.Python.Int as Int
use jsonpy_sql.Python.Int.{pos}
use jsonpy_sql.Python.Value.{Value, null, value_le, str, int, Document}
use jsonpy_sql.Python.Result.{ok}
use jsonpy_sql.Query.Models.{
  AggSpec, count_agg, sum_agg, sum_from, compute_sum, non_null, min_from, max_from, compute_min,
  compute_max,
}
use jsonpy_sql.Query.Aggregates.Extremes.{Each, IsAtMost, IsAtLeast, compute_min-compute_max}
use jsonpy_sql.Query.Aggregates.{
  group_key, compute, apply_aggregates, aggregate_groups, aggregate_fields, group_fields_of,
  group_from, add_to_group,
}
use jsonpy_sql.Query.Aggregates.Keys.{IsDistinct, has_key}
use jsonpy_sql.Query.Aggregates.Rows.{AreRows, apply_aggregates-AreRows}
use jsonpy_sql.Tests.Collections.{ann, bob, ann_stored}

abbrev people : List Document
people = ann ∷ bob ∷ ann_stored ∷ []

abbrev totals : Dict String AggSpec
totals = ("n", count_agg) ∷ ("years", sum_agg "age") ∷ []

abbrev total_rows : List Document
total_rows =
    (("name", str "Ann") ∷ ("n", int (pos 2)) ∷ ("years", int (pos 82)) ∷ [])
    ∷ (("name", str "Bob") ∷ ("n", int (pos 1)) ∷ ("years", int (pos 9)) ∷ [])
    ∷ []

totals-IsDict : IsDict totals
unfolding D.get
totals-IsDict = (refl, (refl, tt))

people_totalled : apply_aggregates people ("name" ∷ []) totals ≡ ok total_rows
unfolding apply_aggregates aggregate_groups aggregate_fields group_fields_of group_from add_to_group
    compute compute_sum sum_from D.get D.set Int.◌+ℤ◌
people_totalled = refl

apply_aggregates-AreRows_example :
    (ks : List (List Value)) × IsDistinct ks
    × ((d : Document) → Memᴰ d people → has_key (group_key d ("name" ∷ [])) ks ≡ true)
    × AreRows ("name" ∷ []) totals people ks total_rows
apply_aggregates-AreRows_example =
    apply_aggregates-AreRows people ("name" ∷ []) totals total_rows totals-IsDict people_totalled

abbrev ages : List Value
ages = int (pos 41) ∷ null ∷ int (pos 9) ∷ int (pos 50) ∷ []

youngest : compute_min ages ≡ ok (int (pos 9))
unfolding compute_min min_from value_le
youngest = refl

oldest : compute_max ages ≡ ok (int (pos 50))
unfolding compute_max max_from value_le
oldest = refl

compute_min-compute_max_example :
    Memᴰ (int (pos 9)) (non_null ages)
    × Memᴰ (int (pos 50)) (non_null ages)
    × Each IsAtMost (int (pos 9)) (non_null ages)
    × Each IsAtLeast (int (pos 50)) (non_null ages)
compute_min-compute_max_example =
    compute_min-compute_max ages (int (pos 9) ∷ int (pos 50) ∷ []) (int (pos 41)) (int (pos 9))
      (int (pos 50)) refl youngest oldest
