-- ===== src/Storage/Engine/Restart.antt =====
-- The indexes of a new engine over the directory of an old one.
use text.Mathlib.Text.{◌==◌ as str_eq}
use jsonpy_sql.Prelude.{
  ◌⊎◌, ◌≡◌, refl, sym, ◌∙◌, ap, subst, String, true, some, List, [], ◌∷◌, arith, eq_iff, Bool-cases,
  inl, inr, all_of, fun_ext,
}
use jsonpy_sql.Python.Dict as D
use jsonpy_sql.Python.Dict.{Dict, string_key}
use jsonpy_sql.Python.Value.{Document}
use jsonpy_sql.Python.Result.{ok, ok-injective, call_returned}
use jsonpy_sql.Storage.SortedDict.{SortedDict}
use jsonpy_sql.Storage.DocumentStore as Store
use jsonpy_sql.Storage.IndexManager as Im
use jsonpy_sql.Storage.IndexManager.{IndexManager, IndexSpec, IndexFiles}
use jsonpy_sql.Storage.IndexManager.Contents.{Holdings, IsExact}
use jsonpy_sql.Storage.IndexManager.Files.{HasOwnFiles, specs_of, SameIndexes, load-save}
use jsonpy_sql.Storage.Engine.State.{Engine, registry, get, scan, file_of}
use jsonpy_sql.Storage.Engine.Startup.{
  Directory, files_of, is_missing, open_manager, open_all, open_engine,
}
use jsonpy_sql.Storage.Engine.Documents.{locked, get_opened}
use jsonpy_sql.Storage.Engine.Indexed.{IsIndexed, held, holdings}
use jsonpy_sql.Storage.Engine.Compacted.{has_text_id, rebuilt-IsExact}
use jsonpy_sql.Storage.Engine.Reopening.{open_engine_lem}

module _ {S : Type 0} ⦃sd : SortedDict S⦄ where
  -- The directory of an engine, with other index files
  abbrev pub directory_with : Dict String IndexFiles → Engine S → Directory
  directory_with fs e = record {
    jsonl = e.jsonl;
    indexes = fs;
    wals = e.wals;
    manifest = e.manifest;
  }

  pub SameIndexes-IsExact :
      (cur : Holdings) (xs ys : List (IndexSpec × S))
      → SameIndexes xs ys
      → IsExact cur ys
      → IsExact cur xs
  SameIndexes-IsExact cur [] [] same h = tt
  SameIndexes-IsExact cur ((s, a) ∷ xs) ((t, b) ∷ ys) (p, q, same) h =
      (λ j k. rw (p, q k) (h.0 j k), SameIndexes-IsExact cur xs ys same h.1)
  SameIndexes-IsExact cur [] (y ∷ ys) same h = absurd same
  SameIndexes-IsExact cur (x ∷ xs) [] same h = absurd same

  pub found-open_all :
      (c : String) (all : Dict String (List IndexSpec)) (specs : List IndexSpec) (dir : Directory)
      (ims : Dict String (IndexManager S))
      → D.get c all ≡ some specs
      → open_all all dir ≡ ok ims
      → (im : IndexManager S) × (D.get c ims ≡ some im) × (open_manager c specs dir ≡ ok im)
  unfolding open_all D.get
  found-open_all c [] specs dir ims h k = absurd (cc)
  found-open_all c ((name, ss) ∷ rest) specs dir ims h k =
      let (im, p, q) = call_returned (open_manager name ss dir) _ k in
      let (ims', r, s) = call_returned (open_all rest dir) _ q in
      elim (Bool-cases (str_eq name c)) [
        | inl t ↦
            let same : ss ≡ specs = ground arith in
            (
              im,
              rw (← ok-injective s, t) refl,
              subst (λ x. open_manager c x dir ≡ ok im) same
                  (subst (λ n. open_manager n ss dir ≡ ok im) ((eq_iff name c).0 t) p),
            )
        | inr t ↦
            let (m, u, v) = found-open_all c rest specs dir ims' (ground arith) r in
            (m, rw (← ok-injective s, t) u, v)
      ]

  -- What a manager that the start makes has in its indexes.
  open_manager-IsExact :
      (col : String) (live : List Document) (cur : Holdings) (im im' : IndexManager S)
      (dir : Directory)
      → HasOwnFiles im.indexes
      → IsExact cur im.indexes
      → ((m : IndexManager S) → IsExact cur (Im.rebuild live m).indexes)
      → Store.scan (D.get col dir.jsonl) ≡ ok live
      → (files_of col dir ≡ (Im.save im).files)
        ⊎ (is_missing (specs_of im.indexes) (files_of col dir).idx ≡ true)
      → open_manager col (specs_of im.indexes) dir ≡ ok im'
      → IsExact cur im'.indexes
  unfolding open_manager Im.save
  open_manager-IsExact col live cur im im' dir own exact rebuilt s left h =
      let made : IndexManager S = Im.load (Im.init (specs_of im.indexes) (files_of col dir)) in
      elim (Bool-cases (is_missing (specs_of im.indexes) (files_of col dir).idx)) [
        | inl t ↦
            let run : open_manager {S = S} col (specs_of im.indexes) dir
                ≡ ok (Im.save (Im.rebuild live made)) =
              rw (t, s) refl in
            subst (λ x. IsExact cur x.indexes) (ok-injective (sym run ∙ h)) (rebuilt made)
        | inr t ↦ elim left [
          | inl u ↦
              let run : open_manager {S = S} col (specs_of im.indexes) dir ≡ ok made =
                rw (t) refl in
              let same = ap (λ f. Im.load {S = S} (Im.init (specs_of im.indexes) f)) (sym u) in
              subst (λ x. IsExact cur x.indexes) (same ∙ ok-injective (sym run ∙ h))
                (SameIndexes-IsExact cur _ im.indexes (load-save im own).0 exact)
          | inr u ↦ absurd (cc)
        ]
      ]

  -- Let no log be left, let the manifest have what is registered, let the documents of a collection
  -- have strings as `_id`, and let its indexes be exact, as they were last saved, in files of their
  -- own. If these files are there, or if one of those that it needs is missing, then a new engine that
  -- opens over the directory has exact indexes for the collection.
  pub open_engine-IsIndexed :
      (col : String) (docs : List Document) (im : IndexManager S) (fs : Dict String IndexFiles)
      (e e' : Engine S)
      → e.wals ≡ []
      → e.manifest ≡ registry e.specs
      → D.get col e.managers ≡ some (Im.save im)
      → D.get col e.specs ≡ some (specs_of im.indexes)
      → HasOwnFiles im.indexes
      → scan col e ≡ ok docs
      → all_of has_text_id docs ≡ true
      → IsExact (holdings col e) im.indexes
      → (files_of col (directory_with fs e) ≡ (Im.save im).files)
        ⊎ (is_missing (specs_of im.indexes) (files_of col (directory_with fs e)).idx ≡ true)
      → open_engine (directory_with fs e) ≡ ok e'
      → IsIndexed col e'
  unfolding scan
  open_engine-IsIndexed col docs im fs e e' logs saved managed specified own scanned texts exact
        left h =
      let dir = directory_with fs e in
      let (ims, all, started) = open_engine_lem dir e.specs e' logs saved h in
      let (made, found, opened) =
        found-open_all col e.specs (specs_of im.indexes) dir ims specified all in
      let (_, ls, r, t, u) = locked col e (λ m. Store.scan (file_of col e)) scanned in
      let e1 : Engine S = record e { managers = ims } in
      let read : (j : String) → get col j e1 ≡ Store.get j (some ls) =
        λ j. get_opened col j e1 made ls found t in
      let kept : holdings col e ≡ holdings col e1 =
        fun_ext (λ j. ap (held j) (get_opened col j e _ ls r t ∙ sym (read j))) in
      subst (IsIndexed col) started (
        made,
        found,
        open_manager-IsExact col docs (holdings col e1) im made dir own
            (subst (λ cur. IsExact cur im.indexes) kept exact)
            (λ m.
              rebuilt-IsExact col (file_of col e) docs m e1 u texts
                (λ j. read j ∙ ap (Store.get j) (sym t)))
            u left opened,
      )
