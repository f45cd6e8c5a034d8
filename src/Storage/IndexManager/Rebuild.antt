-- ===== src/Storage/IndexManager/Rebuild.antt =====
-- `rebuild` from a list of documents.
use text.Mathlib.Text.{◌==◌ as str_eq}
use jsonpy_sql.Prelude.{
  ◌≡◌, refl, subst, fun_ext, String, Option, none, some, List, [], ◌∷◌, arith, eq_iff,
  if◌then◌else◌,
}
use jsonpy_sql.Python.Value.{Document}
use jsonpy_sql.Storage.SortedDict.{SortedDict}
use jsonpy_sql.Storage.IndexManager.Keys.{IndexSpec}
use jsonpy_sql.Storage.IndexManager.Manager.{
  IndexManager, id_or_empty, add_to_indexes, cleared, rebuild_loop, rebuild,
}
use jsonpy_sql.Storage.IndexManager.Contents.{Holdings, IsExact, add-IsExact}

-- The first document of a list with an id.
abbrev pub doc_at : List Document → Holdings
doc_at [] j = none
doc_at (d ∷ ds) j = if str_eq (id_or_empty d) j then some d else doc_at ds j

abbrev pub HasDistinctIds : List Document → Type 0
HasDistinctIds [] = Unit
HasDistinctIds (d ∷ ds) = (doc_at ds (id_or_empty d) ≡ none) × HasDistinctIds ds

abbrev IsFresh : Holdings → List Document → Type 0
IsFresh cur [] = Unit
IsFresh cur (d ∷ ds) = (cur (id_or_empty d) ≡ none) × IsFresh cur ds

abbrev or_else : Option Document → Option Document → Option Document
or_else none o = o
or_else (some d) o = some d

abbrev merged : List Document → Holdings → Holdings
merged ds cur j = or_else (doc_at ds j) (cur j)

abbrev with_doc : Document → Holdings → Holdings
with_doc d cur j = if str_eq (id_or_empty d) j then some d else cur j

IsFresh-with_doc :
    (d : Document) (cur : Holdings) (ds : List Document)
    → doc_at ds (id_or_empty d) ≡ none
    → IsFresh cur ds
    → IsFresh (with_doc d cur) ds
IsFresh-with_doc d cur [] e h = tt
IsFresh-with_doc d cur (x ∷ ds) e h = ground (
  arith,
  eq_iff (id_or_empty d) (id_or_empty x),
  eq_iff (id_or_empty x) (id_or_empty d),
  IsFresh-with_doc d cur ds,
)

merged-with_doc :
    (d : Document) (ds : List Document) (cur : Holdings)
    → doc_at ds (id_or_empty d) ≡ none
    → (j : String) → merged ds (with_doc d cur) j ≡ merged (d ∷ ds) cur j
merged-with_doc d ds cur e j = ground (arith, eq_iff (id_or_empty d) j)

IsFresh-empty : (ds : List Document) → IsFresh (λ j. none) ds
IsFresh-empty [] = tt
IsFresh-empty (d ∷ ds) = (refl, IsFresh-empty ds)

or_else-none : (ds : List Document) (j : String) → merged ds (λ i. none) j ≡ doc_at ds j
or_else-none ds j = ground arith

module _ {S : Type 0} ⦃sd : SortedDict S⦄ where
  rebuild_loop-IsExact :
      (ds : List Document) (cur : Holdings) (xs : List (IndexSpec × S))
      → HasDistinctIds ds
      → IsFresh cur ds
      → IsExact cur xs
      → IsExact (merged ds cur) (rebuild_loop ds xs)
  unfolding rebuild_loop
  rebuild_loop-IsExact [] cur xs u f h = h
  rebuild_loop-IsExact (d ∷ ds) cur xs u f h =
      subst (λ c. IsExact c (rebuild_loop (d ∷ ds) xs)) (fun_ext (merged-with_doc d ds cur u.0))
        (rebuild_loop-IsExact ds (with_doc d cur) (add_to_indexes (id_or_empty d) d xs) u.1
          (IsFresh-with_doc d cur ds u.0 f.1)
          (add-IsExact (id_or_empty d) d cur (with_doc d cur) xs f.0 (λ j. refl) h))

  cleared-IsExact : (xs : List (IndexSpec × S)) → IsExact (λ j. none) (cleared xs)
  cleared-IsExact [] = tt
  cleared-IsExact ((spec, idx) ∷ xs) = (λ j k. ground (arith, sd.get-empty k), cleared-IsExact xs)

  -- A rebuild from documents with distinct ids leaves exact indexes, whatever was in them before.
  pub rebuild-IsExact :
      (ds : List Document) (im : IndexManager S)
      → HasDistinctIds ds
      → IsExact (doc_at ds) (rebuild ds im).indexes
  unfolding rebuild
  rebuild-IsExact ds im u =
      subst (λ c. IsExact c (rebuild ds im).indexes) (fun_ext (or_else-none ds))
        (rebuild_loop-IsExact ds (λ j. none) (cleared im.indexes) u (IsFresh-empty ds)
          (cleared-IsExact im.indexes))
