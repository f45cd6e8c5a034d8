-- ===== src/Query/IndexedQuery.antt =====
-- A query that an index serves, from its predicate to the list of its results.
use text.Mathlib.Text.{◌==◌ as str_eq}
use mathlib.Core.List.{Memᴰ}
use jsonpy_sql.Prelude.{
  ℕ, ◌≡◌, refl, ◌∙◌, ap, String, Bool, true, false, some, List, [], ◌∷◌, arith, filter_by, all_of,
}
use jsonpy_sql.Python.Dict.{string_key, get-set}
use jsonpy_sql.Python.Value.{Value, str, truthy, Document, field}
use jsonpy_sql.Python.Result.{Result, ok, ◌>>=◌, ok-injective, call_returned}
use jsonpy_sql.Storage.SortedDict.{SortedDict}
use jsonpy_sql.Storage.DocumentStore.{id_key}
use jsonpy_sql.Storage.IndexManager.{has_index_for, count}
use jsonpy_sql.Storage.Engine.{Engine, get, lookup, with_id}
use jsonpy_sql.Storage.Engine.Documents.{IsReady}
use jsonpy_sql.Storage.Engine.Indexed.{IsIndexed}
use jsonpy_sql.Storage.Engine.Lookups.{lookup_returns}
use jsonpy_sql.Query.Models.{index_lookup}
use jsonpy_sql.Query.Planner.{Expr, Access, Predicate, parse_predicate, plan}
use jsonpy_sql.Query.Planner.Soundness.{Holds, eval, parse_predicate-equality}
use jsonpy_sql.Query.Rows.{of_list}
use jsonpy_sql.Query.Executor.{apply_predicates, fetch, execute, finish, scan_field, project}
use jsonpy_sql.Query.Executor.Slicing.{slice_lem}
use jsonpy_sql.Query.Builder.{new_builder, where_, build_plan, run, to_list}
use jsonpy_sql.Query.Builder.Pipeline.{to_list-of_list}
use jsonpy_sql.Query.FoundRows.{
  found, fetch-found, found_Mem, filter_Mem, filter_all, found_filtered,
}
use jsonpy_sql.Query.IndexScan.{lookup_equal}

-- A predicate whose test evaluates its source: a lambda with one argument.
abbrev pub lambda_of : (Expr → Document → Result Value) → String → Expr → Predicate
lambda_of rest arg body = record {
  source = some (record { args = arg ∷ []; body = body });
  test = λ d. eval rest arg body d >>= λ v. ok (truthy v);
}

pub true-Holds :
    (rest : Expr → Document → Result Value) (arg : String) (body : Expr) (d : Document)
    → (lambda_of rest arg body).test d ≡ ok true
    → Holds rest arg body d
true-Holds rest arg body d h =
    let (v, p, q) = call_returned (eval rest arg body d) (λ v. ok (truthy v)) h in
    (v, p, ok-injective q)

module _ {S : Type 0} ⦃sd : SortedDict S⦄ where
  -- The query with one filter whose plan is a lookup, on lists
  indexed_query_lem :
      (p : Predicate) (g : Document → Bool) (col f : String) (v : Value) (indexed : List String)
      (size threshold : ℕ) (a : Access) (e : Engine S) (ids : List String) (ds : List Document)
      → parse_predicate p.source indexed ≡ ok a
      → a.scan_type ≡ index_lookup
      → a.index_field ≡ some f
      → a.index_value ≡ v
      → lookup col f v e ≡ ok ids
      → fetch col ids e ≡ of_list ds
      → apply_predicates (p ∷ []) (of_list ds) ≡ of_list (filter_by g ds)
      → to_list (where_ p (new_builder col indexed size threshold)) e ≡ ok (filter_by g ds)
  unfolding to_list where_ run build_plan plan execute finish scan_field project
  indexed_query_lem p g col f v indexed size threshold a e ids ds h t fld val found got decides =
      rw (h, t, fld, val, found, got, decides, slice_lem) (to_list-of_list (filter_by g ds))

  found_once :
      (rest : Expr → Document → Result Value) (col arg f s j : String) (body : Expr)
      (indexed : List String) (a : Access) (e : Engine S) (d : Document) (ids : List String)
      → parse_predicate (lambda_of rest arg body).source indexed ≡ ok a
      → a.scan_type ≡ index_lookup
      → a.index_field ≡ some f
      → a.index_value ≡ str s
      → str_eq id_key f ≡ false
      → (x : IsIndexed col e) → has_index_for f x.0 ≡ true
      → lookup col f (str s) e ≡ ok ids
      → get col j e ≡ ok (some d)
      → Holds rest arg body d
      → count j ids ≡ 1
  found_once rest col arg f s j body indexed a e d ids h t fld val other x has looked read true_of =
      let same = parse_predicate-equality rest arg f body indexed d (str s) a h t fld val true_of in
      let kept_field : field f (with_id j d) ≡ field f d = simp (get-set) (ground (arith, other)) in
      lookup_equal col f s j e (with_id j d) ids x has looked (rw read refl)
        (rw (kept_field, same) refl)

  -- Let a collection be readable, let its indexes be exact, and let its query have one filter, a
  -- one-argument lambda that decides every document of the collection and that is planned as the
  -- lookup of a text in a field with an index, other than `_id`. Then the query returns a list, whose
  -- documents all pass the filter, and a document that a read of the collection returns and that
  -- passes the filter is in this list.
  pub indexed_query_complete :
      (rest : Expr → Document → Result Value) (col arg f s j : String) (body : Expr)
      (g : Document → Bool) (indexed : List String) (size threshold : ℕ) (a : Access) (e : Engine S)
      (d : Document)
      → ((i : String) (c : Document)
          → get col i e ≡ ok (some c)
          → (lambda_of rest arg body).test c ≡ ok (g c))
      → parse_predicate (lambda_of rest arg body).source indexed ≡ ok a
      → a.scan_type ≡ index_lookup
      → a.index_field ≡ some f
      → a.index_value ≡ str s
      → str_eq id_key f ≡ false
      → IsReady col e
      → (x : IsIndexed col e) → has_index_for f x.0 ≡ true
      → get col j e ≡ ok (some d)
      → g d ≡ true
      → (ds : List Document) × (to_list
            (where_ (lambda_of rest arg body) (new_builder col indexed size threshold))
            e
          ≡ ok ds)
        × (all_of g ds ≡ true)
        × Memᴰ d ds
  indexed_query_complete rest col arg f s j body g indexed size threshold a e d decides h t fld val
        other ready x has read true_of =
      let (ids, looked) = lookup_returns col f (str s) e ready in
      let ds = found col e ready ids in
      let once =
        found_once rest col arg f s j body indexed a e d ids h t fld val other x has looked read
          (true-Holds rest arg body d (decides j d read ∙ ap ok true_of)) in
      (
        filter_by g ds,
        indexed_query_lem (lambda_of rest arg body) g col f (str s) indexed size threshold a e ids
            ds h t fld val looked (fetch-found col ids e ready)
            (found_filtered (lambda_of rest arg body) g col e ready ids decides),
        filter_all g ds,
        filter_Mem g d ds true_of (found_Mem col j d e ready ids read once),
      )
