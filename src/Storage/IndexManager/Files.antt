-- ===== src/Storage/IndexManager/Files.antt =====
-- What `load` reads back from the files that `save` has written.
use text.Mathlib.Text.{◌==◌ as str_eq}
use text.Mathlib.TextPositions.{eq_refl}
use jsonpy_sql.Prelude.{
  ◌≡◌, refl, ◌∙◌, String, Bool, false, List, [], ◌∷◌, map, arith, eq_iff, if◌then◌else◌, ltb,
  length,
}
use jsonpy_sql.Python.Dict as D
use jsonpy_sql.Python.Dict.{Dict, string_key, get-set}
use jsonpy_sql.Storage.SortedDict.{SortedDict, Postings, IsDistinct}
use jsonpy_sql.Storage.IndexManager.Keys.{IndexSpec, encode_key-decode_key}
use jsonpy_sql.Storage.IndexManager.Manager.{
  IdxFile, payload, IndexManager, file_name, write_idxs, save, read_entries, read_idx, load_idx,
  load_idxs, load_ridx, load, fresh, init,
}

module _ {S : Type 0} where
  -- No spec of the list has this file name.
  abbrev IsUnnamed : String → List (IndexSpec × S) → Type 0
  IsUnnamed n [] = Unit
  IsUnnamed n ((spec, idx) ∷ xs) = (str_eq (file_name spec.fields) n ≡ false) × IsUnnamed n xs

  -- No two specs share a file name. (The specs `["a", "b"]` and `["a_b"]` would.)
  abbrev pub HasOwnFiles : List (IndexSpec × S) → Type 0
  HasOwnFiles [] = Unit
  HasOwnFiles ((spec, idx) ∷ xs) = IsUnnamed (file_name spec.fields) xs × HasOwnFiles xs

  abbrev pub specs_of : List (IndexSpec × S) → List IndexSpec
  specs_of xs = map (λ x. x.0) xs

module _ {S : Type 0} ⦃sd : SortedDict S⦄ where
  -- Two indexes with the same lists under every key.
  abbrev pub SameIndex : S → S → Type 0
  SameIndex a b = (k : String) → sd.get k a ≡ sd.get k b

  abbrev pub SameIndexes : List (IndexSpec × S) → List (IndexSpec × S) → Type 0
  SameIndexes [] [] = Unit
  SameIndexes ((s, a) ∷ xs) ((t, b) ∷ ys) = (s ≡ t) × SameIndex a b × SameIndexes xs ys
  SameIndexes _ _ = ⊥

  get-read_entries :
      (c : Bool) (p : Postings) (idx : S) (k : String)
      → IsDistinct p
      → sd.get k (read_entries c p idx) ≡ (if D.contains k p then D.get k p else sd.get k idx)
  unfolding read_entries D.get
  get-read_entries c [] idx k h = refl
  get-read_entries c ((raw, ids) ∷ p) idx k h = rw (encode_key-decode_key raw c) (
      ground (
        arith,
        get-read_entries c p (sd.set raw ids idx) k h.1,
        sd.get-set raw k ids idx,
        eq_iff raw k,
      ))

  -- A `.idx` file reads back as the index that was written to it.
  read_idx-items : (spec : IndexSpec) (idx : S) → SameIndex (read_idx spec (sd.items idx)) idx
  unfolding read_idx
  read_idx-items spec idx k = ground (
    arith,
    get-read_entries (ltb 1 (length spec.fields)) (sd.items idx) sd.empty k
        (sd.items-IsDistinct idx),
    sd.get-items k idx,
    sd.get-empty k,
  )

  get-write_idxs :
      (n : String) (xs : List (IndexSpec × S)) (fs : Dict String IdxFile)
      → IsUnnamed n xs
      → D.get n (write_idxs xs fs) ≡ D.get n fs
  unfolding write_idxs
  get-write_idxs n [] fs h = refl
  get-write_idxs n ((spec, idx) ∷ xs) fs h = get-write_idxs n xs _ h.1 ∙ rw (get-set, h.0)

  load-write :
      (xs : List (IndexSpec × S)) (fs : Dict String IdxFile)
      → HasOwnFiles xs
      → SameIndexes (load_idxs (write_idxs xs fs) (fresh (specs_of xs))) xs
  unfolding load_idxs write_idxs load_idx
  load-write [] fs h = tt
  load-write ((spec, idx) ∷ xs) fs h =
      let fs' = D.set (file_name spec.fields) (payload spec (sd.items idx)) fs in
      (
        refl,
        λ k.
            rw (get-write_idxs (file_name spec.fields) xs fs' h.0, get-set, eq_refl)
              (read_idx-items spec idx k),
        load-write xs fs' h.1,
      )

  -- If no two specs share a file name, a new manager over the files that `save` wrote loads indexes,
  -- and a reverse index, with the same lists under every key.
  pub load-save :
      (im : IndexManager S)
      → HasOwnFiles im.indexes
      → let im' : IndexManager S = load (init (specs_of im.indexes) (save im).files) in
        SameIndexes im'.indexes im.indexes × SameIndex im'.reverse im.reverse
  unfolding load init save load_ridx
  load-save im h = (
    load-write im.indexes im.files.idx h,
    λ k. sd.get-of_dict k (sd.items im.reverse) ∙ sd.get-items k im.reverse,
  )
