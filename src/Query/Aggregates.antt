-- ===== src/Query/Aggregates.antt =====
-- query/aggregates.py
pub mod Groups
pub mod Keys
pub mod Rows
pub mod Extremes
use jsonpy_sql.Prelude.{
  ◌≡◌, refl, arith, String, Bool, true, false, Option, none, some, List, [], ◌∷◌, ◌++◌, ◌&&◌, map,
}
use jsonpy_sql.Python.Dict as D
use jsonpy_sql.Python.Dict.{Dict, Key, string_key}
use jsonpy_sql.Python.Value.{
  Value, Document, field, value_eq, value_eq_refl, value_eq_cong, value_key,
}
use jsonpy_sql.Python.Result.{Result, ok, ◌>>=◌}
use jsonpy_sql.Query.Models.{
  AggSpec, count_agg, sum_agg, min_agg, max_agg, compute_count, compute_sum, compute_min,
  compute_max,
}

-- `==` on tuples
abbrev pub tuple_eq : List Value → List Value → Bool
tuple_eq [] [] = true
tuple_eq (a ∷ xs) (b ∷ bs) = value_eq a b && tuple_eq xs bs
tuple_eq _ _ = false

pub tuple_eq_refl : (a : List Value) → tuple_eq a a ≡ true
tuple_eq_refl [] = refl
tuple_eq_refl (v ∷ vs) = ground (arith, value_eq_refl v, tuple_eq_refl vs)

pub tuple_eq_cong : (a b c : List Value) → tuple_eq a b ≡ true → tuple_eq a c ≡ tuple_eq b c
tuple_eq_cong [] [] c h = refl
tuple_eq_cong [] (b ∷ bs) c h = absurd (cc)
tuple_eq_cong (a ∷ xs) [] c h = absurd (cc)
tuple_eq_cong (a ∷ xs) (b ∷ bs) [] h = refl
tuple_eq_cong (a ∷ xs) (b ∷ bs) (c ∷ cs) h =
    ground (arith, value_eq_cong a b c, tuple_eq_cong xs bs cs)

instance abbrev pub tuple_key : Key (List Value)
tuple_key = record { beq = tuple_eq; beq_refl = tuple_eq_refl; beq_cong = tuple_eq_cong }

abbrev pub group_key : Document → List String → List Value
group_key document group_fields = map (λ f. field f document) group_fields

-- The groups of a `defaultdict(list)`
abbrev pub Groups : Type 0
Groups = Dict (List Value) (List Document)

abbrev pub members : Option (List Document) → List Document
members none = []
members (some docs) = docs

-- `groups[key].append(doc)`
unfoldable pub add_to_group : List String → Document → Groups → Groups
add_to_group group_fields doc groups =
    let key = group_key doc group_fields in
    D.set key (members (D.get key groups) ++ (doc ∷ [])) groups

unfoldable pub group_from : List String → List Document → Groups → Groups
group_from group_fields [] groups = groups
group_from group_fields (doc ∷ docs) groups =
    group_from group_fields docs (add_to_group group_fields doc groups)

-- What one aggregate makes of the documents of a group
unfoldable pub compute : AggSpec → List Document → Result Value
compute count_agg docs = ok (compute_count docs)
compute (sum_agg f) docs = compute_sum (map (λ d. field f d) docs)
compute (min_agg f) docs = compute_min (map (λ d. field f d) docs)
compute (max_agg f) docs = compute_max (map (λ d. field f d) docs)

-- `for field_name, value in zip(group_fields, key): row[field_name] = value`
unfoldable pub group_fields_of : List String → List Value → Document → Document
group_fields_of (f ∷ fs) (v ∷ vs) row = group_fields_of fs vs (D.set f v row)
group_fields_of _ _ row = row

unfoldable pub aggregate_fields : Dict String AggSpec → List Document → Document → Result Document
aggregate_fields [] docs row = ok row
aggregate_fields ((agg_name, spec) ∷ specs) docs row =
    compute spec docs >>= λ v. aggregate_fields specs docs (D.set agg_name v row)

unfoldable pub aggregate_groups :
    List String → Dict String AggSpec → Groups → Result (List Document)
aggregate_groups group_fields aggregates [] = ok []
aggregate_groups group_fields aggregates ((key, docs) ∷ groups) = do
  row ← aggregate_fields aggregates docs (group_fields_of group_fields key [])
  rows ← aggregate_groups group_fields aggregates groups
  ok (row ∷ rows)

unfoldable pub apply_aggregates :
    List Document → List String → Dict String AggSpec → Result (List Document)
apply_aggregates documents group_fields aggregates =
    aggregate_groups group_fields aggregates (group_from group_fields documents [])
