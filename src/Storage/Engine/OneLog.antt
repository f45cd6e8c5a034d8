-- ===== src/Storage/Engine/OneLog.antt =====
-- The start of an engine over a directory with one log.
use text.Mathlib.TextPositions.{eq_refl}
use jsonpy_sql.Prelude.{
  ◌≡◌, refl, ◌∙◌, ap, String, true, none, List, [], ◌∷◌, map, arith, All, Bool-cases, inl, inr,
}
use jsonpy_sql.Python.Dict as D
use jsonpy_sql.Python.Dict.{Dict, string_key}
use jsonpy_sql.Python.Value.{Document}
use jsonpy_sql.Python.Result.{ok, ◌>>=◌}
use jsonpy_sql.Storage.SortedDict.{SortedDict}
use jsonpy_sql.Storage.DocumentStore as Store
use jsonpy_sql.Storage.IndexManager as Im
use jsonpy_sql.Storage.IndexManager.{IndexManager, IndexSpec, IndexFiles}
use jsonpy_sql.Storage.Wal.{WalEntry, iter_raw}
use jsonpy_sql.Storage.Wal.Dedup.{last_for}
use jsonpy_sql.Storage.Engine.State.{Engine, Manifest, registry, get, file_of}
use jsonpy_sql.Storage.Engine.Transactions.{wal_of}
use jsonpy_sql.Storage.Engine.Startup.{
  Directory, files_of, is_missing, open_manager, open_all, load_manifest, registered, recover_file,
  recover_files, recover_wal, open_engine,
}
use jsonpy_sql.Storage.Engine.Documents.{IsReady, opened}
use jsonpy_sql.Storage.Engine.Entries.{decide}
use jsonpy_sql.Storage.Engine.Lookups.{scan_returns}
use jsonpy_sql.Storage.Engine.Reopening.{get_alike, contains-open_all}
use jsonpy_sql.Storage.Engine.Restart.{directory_with}
use jsonpy_sql.Storage.Engine.Recovery.{recover_file_lem}

-- Each entry is for a collection of the manifest.
abbrev pub AllListed : Dict String (List IndexSpec) → List WalEntry → Type 0
AllListed specs es = All (λ entry. D.contains entry.collection specs ≡ true) es

module _ {S : Type 0} where
  abbrev pub manifest_of : Engine S → Manifest
  manifest_of e = e.manifest

  -- The names of the logs in the directory
  abbrev pub logs_of : Engine S → List String
  logs_of e = map (λ w. w.0) e.wals

  -- Each collection of the manifest can be read.
  abbrev pub AllReady : Dict String (List IndexSpec) → Engine S → Type 0
  AllReady specs e = (c : String) → D.contains c specs ≡ true → IsReady c e

  pub listed-IsReady :
      (specs : Dict String (List IndexSpec)) (es : List WalEntry) (e : Engine S)
      → AllReady specs e
      → AllListed specs es
      → All (λ entry. IsReady entry.collection e) es
  listed-IsReady specs [] e ready h = tt
  listed-IsReady specs (x ∷ es) e ready h =
      (ready x.collection h.0, listed-IsReady specs es e ready h.1)

module _ {S : Type 0} ⦃sd : SortedDict S⦄ where
  open_manager_returns :
      (name : String) (specs : List IndexSpec) (dir : Directory) (docs : List Document)
      → Store.scan (D.get name dir.jsonl) ≡ ok docs
      → (im : IndexManager S) × (open_manager name specs dir ≡ ok im)
  unfolding open_manager
  open_manager_returns name specs dir docs h =
      let im = Im.load {S = S} (Im.init specs (files_of name dir)) in
      elim (Bool-cases (is_missing specs (files_of name dir).idx)) [
        | inl t ↦ (Im.save (Im.rebuild docs im), rw (t, h) refl)
        | inr t ↦ (im, rw (t) refl)
      ]

  pub open_all_returns :
      (specs : Dict String (List IndexSpec)) (dir : Directory)
      → ((c : String)
          → D.contains c specs ≡ true
          → (docs : List Document) × (Store.scan (D.get c dir.jsonl) ≡ ok docs))
      → (ims : Dict String (IndexManager S)) × (open_all specs dir ≡ ok ims)
  unfolding open_all D.get
  open_all_returns [] dir h = ([], refl)
  open_all_returns ((name, ss) ∷ rest) dir h =
      let (docs, p) = h name (ground (arith, eq_refl name)) in
      let (im, q) = open_manager_returns name ss dir docs p in
      let (ims, r) = open_all_returns rest dir (λ c t. h c (ground (arith, t))) in
      ((name, im) ∷ ims, rw (q, r) refl)

  -- The engine that `_load_manifest` leaves
  abbrev pub loaded :
      Dict String (IndexManager S) → Dict String (List IndexSpec) → Directory → Engine S
  loaded ims specs dir = record {
    managers = ims;
    specs = specs;
    jsonl = dir.jsonl;
    wals = dir.wals;
    manifest = dir.manifest;
  }

  pub load_manifest_lem :
      (specs : Dict String (List IndexSpec)) (dir : Directory) (ims : Dict String (IndexManager S))
      → dir.manifest ≡ registry specs
      → open_all specs dir ≡ ok ims
      → load_manifest dir ≡ ok (loaded ims specs dir)
  unfolding load_manifest
  load_manifest_lem specs dir ims saved all =
      ap (λ m. registered m >>= λ ss. open_all ss dir >>= λ xs. ok (loaded xs ss dir)) saved
      ∙ ap (λ r. r >>= λ xs. ok (loaded xs specs dir)) all

  -- The start with one log: the manifest is loaded, and then that log is replayed.
  pub start_lem :
      (path c j : String) (specs : Dict String (List IndexSpec)) (es : List WalEntry)
      (fs : Dict String IndexFiles) (e : Engine S)
      → e.manifest ≡ registry specs
      → AllReady specs e
      → AllListed specs es
      → logs_of e ≡ path ∷ []
      → iter_raw (wal_of path e) ≡ ok es
      → D.contains c specs ≡ true
      → (e' : Engine S) × (open_engine (directory_with fs e) ≡ ok e')
        × (get c j e' ≡ decide (last_for c j es) (get c j e))
        × (wal_of path e' ≡ none)
  unfolding open_engine recover_wal recover_files
  start_lem path c j specs es fs e saved ready listed logs r here =
      let dir = directory_with {S = S} fs e in
      let (ims, all) = open_all_returns specs dir (λ c t.
        let (im, ls, p, q, u) = opened c "" e (ready c t "").1 in
        scan_returns (file_of c e) (ready c t "").0 u) in
      let e0 = loaded ims specs dir in
      let run : open_engine dir ≡ ok (recover_file path e0) =
        ap (λ r. r >>= λ x. ok (recover_wal x)) (load_manifest_lem specs dir ims saved all)
        ∙ ap (λ paths. ok (recover_files paths e0)) logs in
      let read : (c : String) → D.contains c specs ≡ true → (i : String) → get c i e0 ≡ get c i e =
        λ c t i.
          let (im, ls, p, q, u) = opened c "" e (ready c t "").1 in
          get_alike c i e0 e (contains-open_all c specs dir ims all ∙ t ∙ rw (D.contains, p) refl)
            refl in
      let ready0 : AllReady specs e0 = λ c t i. ((ready c t i).0, read c t i ∙ (ready c t i).1) in
      let (decided, gone) =
        recover_file_lem path es e0 r (listed-IsReady specs es e0 ready0 listed) in
      (recover_file path e0, run, decided c j ∙ ap (decide (last_for c j es)) (read c here j), gone)
