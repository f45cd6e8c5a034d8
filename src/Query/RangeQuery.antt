-- ===== src/Query/RangeQuery.antt =====
-- A query whose plan scans a range of an index, from its predicate to the list of its results.
use text.Mathlib.Text.{◌==◌ as str_eq}
use mathlib.Core.List.{Memᴰ}
use jsonpy_sql.Prelude.{
  ℕ, ◌≡◌, refl, sym, ◌∙◌, ap, subst, String, Bool, true, false, some, List, [], ◌∷◌, arith,
  filter_by, all_of,
}
use jsonpy_sql.Python.Dict.{string_key, get-set}
use jsonpy_sql.Python.Text.{empty_le}
use jsonpy_sql.Python.Value.{Value, null, str, to_str, str_le, value_le, Document, field}
use jsonpy_sql.Python.Result.{Result, ok}
use jsonpy_sql.Storage.SortedDict.{SortedDict}
use jsonpy_sql.Storage.DocumentStore.{id_key}
use jsonpy_sql.Storage.IndexManager as Im
use jsonpy_sql.Storage.IndexManager.{has_index_for, count}
use jsonpy_sql.Storage.IndexManager.Queries.{text_between, range_scan-IsExact}
use jsonpy_sql.Storage.Engine.{Engine, get, range_scan, with_id, require}
use jsonpy_sql.Storage.Engine.Documents.{IsReady}
use jsonpy_sql.Storage.Engine.Indexed.{IsIndexed, holdings}
use jsonpy_sql.Query.Models as Models
use jsonpy_sql.Query.Planner.{Expr, Access, Predicate, parse_predicate, plan}
use jsonpy_sql.Query.Planner.Soundness.{le_of}
use jsonpy_sql.Query.Planner.Ranges.{IsWithin, at_least, at_most, parse_predicate-range}
use jsonpy_sql.Query.Rows.{of_list}
use jsonpy_sql.Query.Executor.{
  apply_predicates, fetch, execute, finish, scan_field, project, or_bound,
}
use jsonpy_sql.Query.Executor.Slicing.{slice_lem}
use jsonpy_sql.Query.Builder.{new_builder, where_, build_plan, run, to_list}
use jsonpy_sql.Query.Builder.Pipeline.{to_list-of_list}
use jsonpy_sql.Query.FoundRows.{
  found, fetch-found, found_Mem, filter_Mem, filter_all, found_filtered,
}
use jsonpy_sql.Query.IndexedQuery.{lambda_of, true-Holds}

-- A value that is at most a text is a text.
le_text : (v : Value) (s : String) → le_of v (str s) ≡ ok true → str_le (to_str v) s ≡ true
unfolding value_le to_str
le_text (str t) s h = ground arith
le_text v s h = absurd (ground arith)

ge_text : (v : Value) (s : String) → le_of (str s) v ≡ ok true → str_le s (to_str v) ≡ true
unfolding value_le to_str
ge_text (str t) s h = ground arith
ge_text v s h = absurd (ground arith)

at_least_text :
    (low v : Value) (lo : String)
    → or_bound "" low ≡ str lo
    → at_least low v ≡ ok true
    → str_le lo (to_str v) ≡ true
unfolding to_str
at_least_text null v lo h k =
    subst (λ t. str_le t (to_str v) ≡ true) (ap to_str h) (empty_le (to_str v))
at_least_text (str s) v lo h k =
    subst (λ t. str_le t (to_str v) ≡ true) (ap to_str h) (ge_text v s k)
at_least_text low v lo h k = absurd (cc)

at_most_text :
    (high v : Value) (hi : String)
    → high ≡ str hi
    → at_most high v ≡ ok true
    → str_le (to_str v) hi ≡ true
at_most_text high v hi h k = le_text v hi (ap (λ x. at_most x v) (sym h) ∙ k)

-- A document whose field lies between two texts has a text between them, where a low bound that is
-- missing is taken for the empty text.
within_text :
    (f lo hi : String) (low high : Value) (d : Document)
    → or_bound "" low ≡ str lo
    → high ≡ str hi
    → IsWithin f low high d
    → text_between f lo hi (some d) ≡ true
within_text f lo hi low high d l h (p, q) =
    let a = at_least_text low (field f d) lo l p in
    let b = at_most_text high (field f d) hi h q in ground (arith, a, b)

module _ {S : Type 0} ⦃sd : SortedDict S⦄ where
  range_scan_indexed :
      (col f : String) (low high : Value) (e : Engine S)
      → (x : IsIndexed col e) → has_index_for f x.0 ≡ true
      → range_scan col f low high e ≡ ok (Im.range_scan f low high x.0)
  unfolding range_scan require
  range_scan_indexed col f low high e (im, p, exact) has = rw (p, has) refl

  -- The query with one filter whose plan scans a range, on lists
  range_query_lem :
      (p : Predicate) (g : Document → Bool) (col f lo hi : String) (indexed : List String)
      (size threshold : ℕ) (a : Access) (e : Engine S) (ids : List String) (ds : List Document)
      → parse_predicate p.source indexed ≡ ok a
      → a.scan_type ≡ Models.range_scan
      → a.index_field ≡ some f
      → or_bound "" a.index_low ≡ str lo
      → a.index_high ≡ str hi
      → range_scan col f (str lo) (str hi) e ≡ ok ids
      → fetch col ids e ≡ of_list ds
      → apply_predicates (p ∷ []) (of_list ds) ≡ of_list (filter_by g ds)
      → to_list (where_ p (new_builder col indexed size threshold)) e ≡ ok (filter_by g ds)
  unfolding to_list where_ run build_plan plan execute finish scan_field project
  range_query_lem p g col f lo hi indexed size threshold a e ids ds h t fld low high found got
        decides =
      rw (h, t, fld, low, high, found, got, decides, slice_lem) (to_list-of_list (filter_by g ds))

  -- Let a collection be readable, let its indexes be exact, and let its query have one filter, a
  -- one-argument lambda that decides every document of the collection and that is planned as the
  -- scan of a range in a field with an index, other than `_id`: with a text as the high bound, and
  -- with a text or nothing as the low bound. Then the query returns a list, whose documents all pass
  -- the filter, and a document that a read of the collection returns and that passes the filter is
  -- in this list.
  pub range_query_complete :
      (rest : Expr → Document → Result Value) (col arg f lo hi j : String) (body : Expr)
      (g : Document → Bool) (indexed : List String) (size threshold : ℕ) (a : Access) (e : Engine S)
      (d : Document)
      → ((i : String) (c : Document)
          → get col i e ≡ ok (some c)
          → (lambda_of rest arg body).test c ≡ ok (g c))
      → parse_predicate (lambda_of rest arg body).source indexed ≡ ok a
      → a.scan_type ≡ Models.range_scan
      → a.index_field ≡ some f
      → or_bound "" a.index_low ≡ str lo
      → a.index_high ≡ str hi
      → str_eq id_key f ≡ false
      → IsReady col e
      → (x : IsIndexed col e) → has_index_for f x.0 ≡ true
      → get col j e ≡ ok (some d)
      → g d ≡ true
      → (ds : List Document) × (to_list
            (where_ (lambda_of rest arg body) (new_builder col indexed size threshold))
            e
          ≡ ok ds)
        × (all_of g ds ≡ true)
        × Memᴰ d ds
  unfolding to_str
  range_query_complete rest col arg f lo hi j body g indexed size threshold a e d decides h t fld
        low high other ready x has read true_of =
      let ids = Im.range_scan f (str lo) (str hi) x.0 in
      let ds = found col e ready ids in
      let holds = true-Holds rest arg body d (decides j d read ∙ ap ok true_of) in
      let within =
        parse_predicate-range rest arg f body indexed d a.index_low a.index_high a h t fld refl refl
          holds in
      let kept_field : field f (with_id j d) ≡ field f d = simp (get-set) (ground (arith, other)) in
      let text : text_between f lo hi (some d) ≡ true =
        within_text f lo hi a.index_low a.index_high d low high within in
      let here : text_between f lo hi (holdings col e j) ≡ true = rw (read, kept_field) text in
      let once : count j ids ≡ 1 =
        range_scan-IsExact f (str lo) (str hi) (holdings col e) x.0 x.2 has j ∙ rw (here) refl in
      (
        filter_by g ds,
        range_query_lem (lambda_of rest arg body) g col f lo hi indexed size threshold a e ids ds h
            t fld low high (range_scan_indexed col f (str lo) (str hi) e x has)
            (fetch-found col ids e ready)
            (found_filtered (lambda_of rest arg body) g col e ready ids decides),
        filter_all g ds,
        filter_Mem g d ds true_of (found_Mem col j d e ready ids read once),
      )
