-- ===== src/Storage/Engine/SavedFiles.antt =====
-- storage/index_manager.py: the index files that `save` writes, as the next start finds them.
use text.Mathlib.TextPositions.{eq_refl}
use jsonpy_sql.Prelude.{◌≡◌, refl, ◌∙◌, String, true, false, none, some, List, [], ◌∷◌, arith}
use jsonpy_sql.Python.Dict as D
use jsonpy_sql.Python.Dict.{Dict, string_key, get-set}
use jsonpy_sql.Storage.SortedDict.{SortedDict}
use jsonpy_sql.Storage.IndexManager.{
  IndexManager, IndexSpec, IdxFile, payload, file_name, write_idxs, find_index_for, has_index_for,
}
use jsonpy_sql.Storage.IndexManager.Files.{specs_of, SameIndexes}
use jsonpy_sql.Storage.Engine.Startup.{is_missing}

module _ {S : Type 0} ⦃sd : SortedDict S⦄ where
  contains-write_idxs :
      (n : String) (xs : List (IndexSpec × S)) (fs : Dict String IdxFile)
      → D.contains n fs ≡ true
      → D.contains n (write_idxs xs fs) ≡ true
  unfolding write_idxs
  contains-write_idxs n [] fs h = h
  contains-write_idxs n ((spec, idx) ∷ xs) fs h =
      contains-write_idxs n xs (D.set (file_name spec.fields) (payload spec (sd.items idx)) fs)
        (ground (arith, get-set (file_name spec.fields) n (payload spec (sd.items idx)) fs))

  -- No index file is missing after `save`.
  pub is_missing-write_idxs :
      (xs : List (IndexSpec × S)) (fs : Dict String IdxFile)
      → is_missing (specs_of xs) (write_idxs xs fs) ≡ false
  unfolding is_missing write_idxs
  is_missing-write_idxs [] fs = refl
  is_missing-write_idxs ((spec, idx) ∷ xs) fs =
      let fs' = D.set (file_name spec.fields) (payload spec (sd.items idx)) fs in
      let there : D.contains (file_name spec.fields) fs' ≡ true =
        rw (D.contains, get-set, eq_refl) refl in
      rw (contains-write_idxs (file_name spec.fields) xs fs' there) (is_missing-write_idxs xs fs')

  find-SameIndexes :
      (f : String) (xs ys : List (IndexSpec × S))
      → SameIndexes xs ys
      → elim (find_index_for f xs) [ none ↦ false | some _ ↦ true ]
        ≡ elim (find_index_for f ys) [ none ↦ false | some _ ↦ true ]
  unfolding find_index_for
  find-SameIndexes f [] [] h = refl
  find-SameIndexes f ((s, a) ∷ xs) ((t, b) ∷ ys) (p, q, h) =
      rw (p) (ground (arith, find-SameIndexes f xs ys h))
  find-SameIndexes f [] (y ∷ ys) h = absurd h
  find-SameIndexes f (x ∷ xs) [] h = absurd h

  pub has_index-SameIndexes :
      (f : String) (made im : IndexManager S)
      → SameIndexes made.indexes im.indexes
      → has_index_for f im ≡ true
      → has_index_for f made ≡ true
  unfolding has_index_for
  has_index-SameIndexes f made im same has = find-SameIndexes f made.indexes im.indexes same ∙ has
