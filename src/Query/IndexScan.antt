-- ===== src/Query/IndexScan.antt =====
-- The index lookups of a plan against the documents that satisfy the predicate.
use text.Mathlib.Text.{◌==◌ as str_eq}
use jsonpy_sql.Prelude.{◌≡◌, refl, ◌∙◌, String, true, some, List, [], ◌∷◌}
use jsonpy_sql.Python.Value.{Value, str, value_eq, to_str, Document, field}
use jsonpy_sql.Python.Result.{Result, ok}
use jsonpy_sql.Storage.SortedDict.{SortedDict}
use jsonpy_sql.Storage.IndexManager.{has_index_for, count}
use jsonpy_sql.Storage.Engine.{Engine, lookup}
use jsonpy_sql.Storage.Engine.Indexed.{IsIndexed, holdings, lookup-IsIndexed}
use jsonpy_sql.Query.Models.{index_lookup}
use jsonpy_sql.Query.Planner.{Expr, Access, parse_predicate}
use jsonpy_sql.Query.Planner.Soundness.{Holds, parse_predicate-equality}

equal_text : (v : Value) (s : String) → value_eq v (str s) ≡ true → str_eq (to_str v) s ≡ true
unfolding to_str
equal_text (str t) s h = h
equal_text v s h = absurd (cc)

module _ {S : Type 0} ⦃sd : SortedDict S⦄ where
  -- A lookup of a text finds each document whose field equals it, once.
  pub lookup_equal :
      (col f s j : String) (e : Engine S) (d : Document) (ids : List String)
      → (x : IsIndexed col e) → has_index_for f x.0 ≡ true
      → lookup col f (str s) e ≡ ok ids
      → holdings col e j ≡ some d
      → value_eq (field f d) (str s) ≡ true
      → count j ids ≡ 1
  unfolding to_str
  lookup_equal col f s j e d ids x has found held same =
      let text : str_eq (to_str (field f d)) s ≡ true = equal_text (field f d) s same in
      lookup-IsIndexed col f (str s) e ids x has found j ∙ rw (held, text) refl

  -- Let the plan of a one-argument lambda be the lookup of a text in a field, let the collection
  -- have an index on that field, and let its indexes be exact. Then a successful lookup finds each
  -- document that the lambda is true of, once.
  lookup_complete :
      (rest : Expr → Document → Result Value) (col arg f s j : String) (body : Expr)
      (indexed : List String) (a : Access) (e : Engine S) (d : Document) (ids : List String)
      → parse_predicate (some (record { args = arg ∷ []; body = body })) indexed ≡ ok a
      → a.scan_type ≡ index_lookup
      → a.index_field ≡ some f
      → a.index_value ≡ str s
      → (x : IsIndexed col e) → has_index_for f x.0 ≡ true
      → lookup col f (str s) e ≡ ok ids
      → holdings col e j ≡ some d
      → Holds rest arg body d
      → count j ids ≡ 1
  lookup_complete rest col arg f s j body indexed a e d ids h t fld val x has found held true_of =
      lookup_equal col f s j e d ids x has found held
        (parse_predicate-equality rest arg f body indexed d (str s) a h t fld val true_of)
