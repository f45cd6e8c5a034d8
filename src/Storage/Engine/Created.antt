-- ===== src/Storage/Engine/Created.antt =====
-- The state of a new collection.
use text.Mathlib.TextPositions.{eq_refl}
use jsonpy_sql.Prelude.{
  ◌≡◌, refl, ◌∙◌, String, Bool, true, false, none, some, List, [], ◌∷◌, arith, if◌then◌else◌,
}
use jsonpy_sql.Python.Dict as D
use jsonpy_sql.Python.Dict.{string_key, get-set}
use jsonpy_sql.Python.Result.{Error, Result, ok, err, ok-injective, call_returned}
use jsonpy_sql.Storage.SortedDict.{SortedDict}
use jsonpy_sql.Storage.DocumentStore as Store
use jsonpy_sql.Storage.IndexManager as Im
use jsonpy_sql.Storage.IndexManager.{IndexManager, IndexSpec, find_index_for, only_field, ids_at}
use jsonpy_sql.Storage.IndexManager.Contents.{Holdings, IsExact}
use jsonpy_sql.Storage.Engine.State.{Engine, get, file_of}
use jsonpy_sql.Storage.Engine.Collections.{create_collection, create_new, save_manifest, no_files}
use jsonpy_sql.Storage.Engine.Registry.{create_collection_lem}
use jsonpy_sql.Storage.Engine.Documents.{IsReady}
use jsonpy_sql.Storage.Engine.Indexed.{IsIndexed, holdings}
use jsonpy_sql.Storage.Engine.Declared.{has_index, found_index, is_some, has_index_is}

-- One of the specs is for the field alone.
abbrev pub declares : String → List IndexSpec → Bool
declares f [] = false
declares f (spec ∷ specs) = if only_field f spec.fields then true else declares f specs

pub passed_guard :
    {A : Type 0} (b : Bool) (x : Error) (r : Result A) {a : A}
    → (if b then err x else r) ≡ ok a
    → r ≡ ok a
passed_guard true x r h = absurd (cc)
passed_guard false x r h = h

fresh-IsExact :
    (S : Type 0)
    → ⦃sd : SortedDict S⦄ → (specs : List IndexSpec) (cur : Holdings)
    → ((j : String) → cur j ≡ none)
    → IsExact {S = S} cur (Im.fresh specs)
fresh-IsExact S [] cur h = tt
fresh-IsExact S ⦃sd = sd⦄ (spec ∷ specs) cur h =
    (λ j k. rw (h j, sd.get-empty k) refl, fresh-IsExact S specs cur h)

find-fresh :
    (S : Type 0)
    → ⦃sd : SortedDict S⦄ → (f : String) (specs : List IndexSpec)
    → is_some {S = S} (find_index_for f (Im.fresh specs)) ≡ declares f specs
unfolding find_index_for
find-fresh S f [] = refl
find-fresh S f (spec ∷ specs) = ground (arith, find-fresh S f specs)

module _ {S : Type 0} ⦃sd : SortedDict S⦄ where
  pub new_manager :
      (name : String) (specs : List IndexSpec) (e e' : Engine S)
      → create_new name specs e ≡ ok e'
      → D.get name e'.managers ≡ some (Im.save (Im.init specs no_files))
  unfolding create_new save_manifest
  new_manager name specs e e' h =
      let (store, p, q) = call_returned (Store.create (file_of name e)) _ h in
      rw (← ok-injective q, get-set, eq_refl name) refl

  -- A collection that was just created can be read and is empty, its indexes are exact, and it has
  -- an index on each field for which a spec was given.
  pub created_lem :
      (name f : String) (specs : List IndexSpec) (e e' : Engine S)
      → create_collection name specs false e ≡ ok e'
      → IsReady name e'
        × IsIndexed name e'
        × ((j : String) → holdings name e' j ≡ none)
        × (has_index name f e' ≡ declares f specs)
  unfolding create_collection Im.save Im.init
  created_lem name f specs e e' h =
      let empty : (j : String) → get name j e' ≡ ok none =
        λ j. (create_collection_lem name name j specs false e e' h).0 ∙ rw (eq_refl name) refl in
      let none_held : (j : String) → holdings name e' j ≡ none = λ j. rw (empty j) refl in
      let m : D.get name e'.managers ≡ some (Im.save (Im.init specs no_files)) =
        new_manager name specs e e' (passed_guard (D.contains name e.managers) _ _ h) in
      (
        λ j. (none, empty j),
        (Im.save (Im.init specs no_files), m, fresh-IsExact S specs (holdings name e') none_held),
        none_held,
        found_index name f e' (Im.save (Im.init specs no_files)) m
            ∙ has_index_is f (Im.save (Im.init specs no_files))
            ∙ find-fresh S f specs,
      )
