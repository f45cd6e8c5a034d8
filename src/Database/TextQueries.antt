-- ===== src/Database/TextQueries.antt =====
-- A query of a collection through the database, which tells it the fields that have an index.
use text.Mathlib.Text.{◌==◌ as str_eq, starts_with}
use mathlib.Core.List.{Memᴰ}
use jsonpy_sql.Prelude.{
  ◌⊎◌, ℕ, ◌≡◌, refl, sym, ◌∙◌, ap, subst, String, Bool, true, false, some, List, [], ◌∷◌, arith,
  all_of, inl, inr, Bool-cases,
}
use jsonpy_sql.Python.Dict.{string_key}
use jsonpy_sql.Python.Value.{Value, str, Document}
use jsonpy_sql.Python.Result.{Result, ok, ◌>>=◌, ok-injective, call_returned}
use jsonpy_sql.Storage.SortedDict.{SortedDict}
use jsonpy_sql.Storage.DocumentStore.{Line, id_key}
use jsonpy_sql.Storage.IndexManager.{str_mem, has_index_for}
use jsonpy_sql.Storage.Engine.{get, get_stats}
use jsonpy_sql.Storage.Engine.Declared.{found_index}
use jsonpy_sql.Storage.Engine.Documents.{IsReady}
use jsonpy_sql.Storage.Engine.Indexed.{IsIndexed}
use jsonpy_sql.Query.Models.{index_lookup, range_scan}
use jsonpy_sql.Query.Planner.{Expr, Access, is_indexed, parse_predicate}
use jsonpy_sql.Query.Planner.Indexed.{parse_predicate-is_indexed}
use jsonpy_sql.Query.Executor.{or_bound}
use jsonpy_sql.Query.Builder.{QueryBuilder, new_builder, to_list}
use jsonpy_sql.Query.Builder as Builder
use jsonpy_sql.Query.IndexedQuery.{lambda_of, indexed_query_complete}
use jsonpy_sql.Query.RangeQuery.{range_query_complete}
use jsonpy_sql.Schema.Registry as Registry
use jsonpy_sql.Database.Queryable.{QueryableCollection, name_of, builder, where_}
use jsonpy_sql.Database.State.{Database, engine_of, get_indexed_fields, getattr}
use jsonpy_sql.Database.Access.{get_indexed_fields-has_index}

-- The plan looks a text up, or scans the texts up to one.
abbrev pub IsTextPlan : Access → Type 0
IsTextPlan a =
    ((a.scan_type ≡ index_lookup) × (s : String) × (a.index_value ≡ str s))
    ⊎ ((a.scan_type ≡ range_scan)
        × (lo : String) × (hi : String) × (or_bound "" a.index_low ≡ str lo)
        × (a.index_high ≡ str hi))

is_indexed_mem : (f : String) (fs : List String) → is_indexed f fs ≡ str_mem f fs
is_indexed_mem f [] = refl
is_indexed_mem f (g ∷ fs) = ground (arith, is_indexed_mem f fs)

module _ {S M F B : Type 0} ⦃sd : SortedDict S⦄ where
  getattr_fields :
      (size_of : List Line → ℕ) (name : String) (db : Database S M F B) (q : QueryableCollection M)
      → getattr size_of name db ≡ ok q
      → q.indexed_fields ≡ get_indexed_fields name db
  unfolding getattr
  getattr_fields size_of name db q h = elim (Bool-cases (starts_with name "_")) [
    | inl t ↦ absurd (ground (arith, t))
    | inr t ↦
        let run : getattr size_of name db ≡ (do
          col ← Registry.get_collection name db.manager
          stats ← get_stats size_of name (engine_of db)
          ok (record {
            col = col;
            indexed_fields = get_indexed_fields name db;
            collection_size = stats.document_count;
          })) =
          rw (t) refl in
        let (col, p, r) = call_returned (Registry.get_collection name db.manager) _ (sym run ∙ h) in
        let (stats, p', r') = call_returned (get_stats size_of name (engine_of db)) _ r in
        ap (λ (x : QueryableCollection M). x.indexed_fields) (sym (ok-injective r'))
  ]

  -- Let a collection of a database be readable, let its indexes be exact, and let a query of it have
  -- one filter, a one-argument lambda that decides every document of the collection and whose plan,
  -- for the fields that the database names, looks up a text or scans the texts up to one in a field
  -- other than `_id`. Then the query returns a list, whose documents all pass the filter, and a
  -- document that a read of the collection returns and that passes the filter is in this list.
  pub database_query_complete :
      (rest : Expr → Document → Result Value) (size_of : List Line → ℕ) (name arg f j : String)
      (body : Expr) (g : Document → Bool) (a : Access) (db : Database S M F B)
      (q : QueryableCollection M) (d : Document)
      → getattr size_of name db ≡ ok q
      → name_of q.col ≡ name
      → ((i : String) (c : Document)
          → get name i (engine_of db) ≡ ok (some c)
          → (lambda_of rest arg body).test c ≡ ok (g c))
      → parse_predicate (lambda_of rest arg body).source (get_indexed_fields name db) ≡ ok a
      → a.index_field ≡ some f
      → IsTextPlan a
      → str_eq id_key f ≡ false
      → IsReady name (engine_of db)
      → IsIndexed name (engine_of db)
      → get name j (engine_of db) ≡ ok (some d)
      → g d ≡ true
      → (ds : List Document) × (to_list (where_ (lambda_of rest arg body) q) (engine_of db) ≡ ok ds)
        × (all_of g ds ≡ true)
        × Memᴰ d ds
  unfolding where_ builder
  database_query_complete rest size_of name arg f j body g a db q d handed named decides h fld text
        other ready x read true_of =
      let e = engine_of db in
      let fields = get_indexed_fields name db in
      let same : new_builder name fields q.collection_size 10000 ≡ builder q =
        rw (named, getattr_fields size_of name db q handed) refl in
      let has : has_index_for f x.0 ≡ true =
        sym (found_index name f e x.0 x.1)
        ∙ sym (get_indexed_fields-has_index name f db)
        ∙ sym (is_indexed_mem f fields)
        ∙ parse_predicate-is_indexed f arg body fields a h fld in
      subst
        (λ b.
          (ds : List Document) × (to_list (Builder.where_ (lambda_of rest arg body) b) e ≡ ok ds)
          × (all_of g ds ≡ true)
          × Memᴰ d ds)
        same
        (elim text [
          | inl (t, s, v) ↦
              indexed_query_complete rest name arg f s j body g fields q.collection_size 10000 a e d
                decides h t fld v other ready x has read true_of
          | inr (t, lo, hi, l, u) ↦
              range_query_complete rest name arg f lo hi j body g fields q.collection_size 10000 a e
                d decides h t fld l u other ready x has read true_of
        ])
