-- ===== src/Storage/Engine/Lookups.antt =====
-- Lookups in a collection that can be read.
use jsonpy_sql.Prelude.{◌≡◌, refl, sym, ◌∙◌, String, Option, List, Bool-cases, inl, inr}
use jsonpy_sql.Python.Value.{Value, Document}
use jsonpy_sql.Python.Result.{ok, call_returned}
use jsonpy_sql.Storage.SortedDict.{SortedDict}
use jsonpy_sql.Storage.DocumentStore as Store
use jsonpy_sql.Storage.DocumentStore.Scan.{get-scan}
use jsonpy_sql.Storage.IndexManager as Im
use jsonpy_sql.Storage.IndexManager.{has_index_for}
use jsonpy_sql.Storage.Engine.State.{Engine, lookup, file_of, require, lock, ids_equal}
use jsonpy_sql.Storage.Engine.Documents.{IsReady, opened}

-- A file on which each read returns can be scanned.
pub scan_returns :
    (f : Store.File) (o : Option Document)
    → Store.get "" f ≡ ok o
    → (docs : List Document) × (Store.scan f ≡ ok docs)
scan_returns f o h =
    let (docs, p, q) = call_returned (Store.scan f) _ (sym (get-scan "" f) ∙ h) in (docs, p)

module _ {S : Type 0} ⦃sd : SortedDict S⦄ where
  -- In a collection that can be read every lookup returns.
  pub lookup_returns :
      (col f : String) (v : Value) (e : Engine S)
      → IsReady col e
      → (ids : List String) × (lookup col f v e ≡ ok ids)
  unfolding lookup require lock
  lookup_returns col f v e ready =
      let (im, ls, p, q, r) = opened col "" e (ready "").1 in
      let (docs, s) = scan_returns (file_of col e) (ready "").0 r in
      elim (Bool-cases (has_index_for f im)) [
        | inl t ↦ (Im.lookup f v im, rw (p, t) refl)
        | inr t ↦ (ids_equal f v docs, rw (p, t, q, ← q, s) refl)
      ]
