-- ===== src/Storage/Engine/Interrupted.antt =====
-- A single write that stops between the document file and the index files.
use text.Mathlib.Text.{◌==◌ as str_eq}
use text.Mathlib.TextPositions.{eq_refl}
use jsonpy_sql.Prelude.{
  ◌≡◌, refl, sym, ◌∙◌, ap, subst, String, true, false, Option, none, some, List, [], ◌∷◌, arith,
  map, Bool-cases, inl, inr, if◌then◌else◌,
}
use jsonpy_sql.Python.Dict as D
use jsonpy_sql.Python.Dict.{Dict, string_key, get-set}
use jsonpy_sql.Python.Value.{Value, truthy, field, Document}
use jsonpy_sql.Python.Result.{ok, ok-injective, ◌>>=◌}
use jsonpy_sql.Storage.SortedDict.{SortedDict}
use jsonpy_sql.Storage.DocumentStore.{deleted_key, strip_id}
use jsonpy_sql.Storage.DocumentStore.Reads.{visible}
use jsonpy_sql.Storage.IndexManager as Im
use jsonpy_sql.Storage.IndexManager.{
  IndexManager, IndexSpec, IdxFile, payload, file_name, write_idxs, find_index_for, has_index_for,
  count,
}
use jsonpy_sql.Storage.IndexManager.Contents.{IsExact}
use jsonpy_sql.Storage.IndexManager.Queries.{lookup-IsExact}
use jsonpy_sql.Storage.IndexManager.Files.{HasOwnFiles, specs_of, SameIndexes, load-save}
use jsonpy_sql.Storage.Engine.SavedFiles.{is_missing-write_idxs, has_index-SameIndexes}
use jsonpy_sql.Storage.Engine.State.{Engine, file_of, registry, get, insert, lookup}
use jsonpy_sql.Storage.Engine.Startup.{Directory, files_of, open_manager, recover_wal, open_engine}
use jsonpy_sql.Storage.Engine.Documents.{locked, opened, get-insert}
use jsonpy_sql.Storage.Engine.Indexed.{holdings, manager-write_back}
use jsonpy_sql.Storage.Engine.Reopening.{get_alike, open_engine_lem, directory_of}
use jsonpy_sql.Storage.Engine.Restart.{SameIndexes-IsExact, found-open_all}
use jsonpy_sql.Storage.Engine.Lookups.{scan_returns}
use jsonpy_sql.Storage.Engine.OneLog.{AllReady, open_all_returns, loaded, load_manifest_lem}
use jsonpy_sql.Storage.Engine.Shared.Stale.{lookup_indexed}

module _ {S : Type 0} ⦃sd : SortedDict S⦄ where
  files_of-directory_of :
      (col : String) (im : IndexManager S) (e : Engine S)
      → D.get col e.managers ≡ some im
      → files_of col (directory_of e) ≡ im.files
  unfolding D.get
  files_of-directory_of col im e h = rw (files_of, go e.managers h) refl
    where
      go :
          (ms : Dict String (IndexManager S))
          → D.get col ms ≡ some im
          → D.get col (map (λ m. (m.0, m.1.files)) ms) ≡ some im.files
      go [] h = absurd (cc)
      go ((n, m) ∷ ms) h = ground (arith, go ms)

  saved_manager :
      (col : String) (im made : IndexManager S) (dir : Directory)
      → files_of col dir ≡ (Im.save im).files
      → open_manager col (specs_of im.indexes) dir ≡ ok made
      → Im.load (Im.init (specs_of im.indexes) (Im.save im).files) ≡ made
  unfolding open_manager Im.save
  saved_manager col im made dir files h =
      let run : open_manager {S = S} col (specs_of im.indexes) dir
          ≡ ok (Im.load (Im.init (specs_of im.indexes) (Im.save im).files)) =
        rw (files, is_missing-write_idxs im.indexes im.files.idx) refl in
      ok-injective (sym run ∙ h)

  inserted_known :
      (col id : String) (d : Document) (e e' : Engine S)
      → insert col id d e ≡ ok e'
      → D.contains col e'.managers ≡ true
  unfolding insert
  inserted_known col id d e e' h =
      let (im, ls, p, q, r) = locked col e _ h in
      subst (λ x. D.contains col x.managers ≡ true) (ok-injective r)
        (rw (D.contains, manager-write_back) refl)

  -- The directory where a write has reached the document file, and no index file
  abbrev pub half_written : Engine S → Engine S → Directory
  half_written e written = record (directory_of e) { jsonl = written.jsonl }

  -- The start over a half-written insert returns.
  half_written_returns :
      (col id : String) (d : Document) (e written : Engine S)
      → e.manifest ≡ registry e.specs
      → AllReady e.specs e
      → D.contains col e.specs ≡ true
      → insert col id d e ≡ ok written
      → (e' : Engine S) × (open_engine (half_written e written) ≡ ok e')
  unfolding open_engine
  half_written_returns col id d e written saved ready here h =
      let dir = half_written e written in
      let readable : (c : String)
          → D.contains c e.specs ≡ true
          → (o : Option Document) × (get c "" written ≡ ok o) =
        λ c t.
          let (o, q) = ready c t "" in
          let (o1, q1) = ready col here "" in
          let read = get-insert col c id "" d e written h in
          elim (Bool-cases (str_eq col c)) [
            | inl s ↦ (if str_eq id "" then visible d else o1, read ∙ rw (s, q1) refl)
            | inr s ↦ (o, read ∙ rw (s) q)
          ] in
      let (ims, all) = open_all_returns e.specs dir (λ c t.
        let (o, q) = readable c t in
        let (im, ls, p, r, u) = opened c "" written q in scan_returns (file_of c written) o u) in
      (
        recover_wal (loaded ims e.specs dir),
        ap (λ r. r >>= λ x. ok (recover_wal x)) (load_manifest_lem e.specs dir ims saved all),
      )

  started_half_written :
      (col id f : String) (v : Value) (d : Document) (im : IndexManager S) (e written e' : Engine S)
      → e.wals ≡ []
      → e.manifest ≡ registry e.specs
      → D.get col e.managers ≡ some (Im.save im)
      → D.get col e.specs ≡ some (specs_of im.indexes)
      → HasOwnFiles im.indexes
      → IsExact (holdings col e) im.indexes
      → has_index_for f im ≡ true
      → get col id e ≡ ok none
      → truthy (field deleted_key d) ≡ false
      → insert col id d e ≡ ok written
      → open_engine (half_written e written) ≡ ok e'
      → (get col id e' ≡ ok (some (strip_id d)))
        × (ids : List String) × (lookup col f v e' ≡ ok ids)
        × (count id ids ≡ 0)
  unfolding visible
  started_half_written col id f v d im e written e' logs saved managed specified own exact has new
        live h start =
      let dir = half_written e written in
      let (ims, all, started) = open_engine_lem dir e.specs e' logs saved start in
      let (made, found, opened) =
        found-open_all col e.specs (specs_of im.indexes) dir ims specified all in
      let loaded =
        saved_manager col im made dir (files_of-directory_of col (Im.save im) e managed) opened in
      let same : SameIndexes made.indexes im.indexes =
        subst (λ m. SameIndexes m.indexes im.indexes) loaded (load-save im own).0 in
      let indexed : has_index_for f made ≡ true = has_index-SameIndexes f made im same has in
      let unlisted : count id (Im.lookup f v made) ≡ 0 =
        lookup-IsExact f v (holdings col e) made
          (SameIndexes-IsExact (holdings col e) made.indexes im.indexes same exact) indexed id
        ∙ rw (new) refl in
      let e1 : Engine S = record e { managers = ims; jsonl = written.jsonl } in
      let known : D.contains col ims ≡ D.contains col written.managers =
        rw (D.contains, found) (sym (inserted_known col id d e written h)) in
      subst
        (λ x.
          (get col id x ≡ ok (some (strip_id d)))
          × (ids : List String) × (lookup col f v x ≡ ok ids)
          × (count id ids ≡ 0))
        started
        (
          get_alike col id e1 written known refl
              ∙ get-insert col col id id d e written h
              ∙ rw (eq_refl col, new, eq_refl id, live) refl,
          Im.lookup f v made,
          lookup_indexed col f v e1 made found indexed,
          unlisted,
        )

  -- Let every registered collection be readable, let one have exact indexes, one of them on a field,
  -- that were saved in files of their own, let no log be left and the manifest have what is
  -- registered. If the process stops in the insert under a new id of a document without a true
  -- `_deleted` field, after the line was appended and before an index file was replaced, then the
  -- next start returns an engine that reads the document under that id, less an `_id` field, and no
  -- lookup in the field finds the id.
  pub insert_stops :
      (col id f : String) (v : Value) (d : Document) (im : IndexManager S) (e written : Engine S)
      → e.wals ≡ []
      → e.manifest ≡ registry e.specs
      → AllReady e.specs e
      → D.get col e.managers ≡ some (Im.save im)
      → D.get col e.specs ≡ some (specs_of im.indexes)
      → HasOwnFiles im.indexes
      → IsExact (holdings col e) im.indexes
      → has_index_for f im ≡ true
      → get col id e ≡ ok none
      → truthy (field deleted_key d) ≡ false
      → insert col id d e ≡ ok written
      → (e' : Engine S) × (open_engine (half_written e written) ≡ ok e')
        × (get col id e' ≡ ok (some (strip_id d)))
        × (ids : List String) × (lookup col f v e' ≡ ok ids)
        × (count id ids ≡ 0)
  insert_stops col id f v d im e written logs saved ready managed specified own exact has new live
        h =
      let here : D.contains col e.specs ≡ true = rw (D.contains, specified) refl in
      let (e', start) = half_written_returns col id d e written saved ready here h in
      let (read, ids, found, unlisted) =
        started_half_written col id f v d im e written e' logs saved managed specified own exact has
          new live h start in
      (e', start, read, ids, found, unlisted)
