-- ===== src/Storage/Engine/Startup.antt =====
-- `__init__`: `_load_manifest` and `_recover_wal`.
use jsonpy_sql.Prelude.{String, Bool, true, false, none, some, List, [], ◌∷◌, map, if◌then◌else◌}
use jsonpy_sql.Python.Dict as D
use jsonpy_sql.Python.Dict.{Dict, string_key}
use jsonpy_sql.Python.Result.{Result, ok, err, storage_error, ◌>>=◌}
use jsonpy_sql.Storage.SortedDict.{SortedDict}
use jsonpy_sql.Storage.DocumentStore as Store
use jsonpy_sql.Storage.DocumentStore.{Line}
use jsonpy_sql.Storage.IndexManager as Im
use jsonpy_sql.Storage.IndexManager.{IndexManager, IndexFiles, IndexSpec, IdxFile, file_name}
use jsonpy_sql.Storage.Wal as Wal
use jsonpy_sql.Storage.Wal.{WalEntry, WalLine}
use jsonpy_sql.Storage.Engine.State.{Engine, Manifest, absent, corrupt, registry}
use jsonpy_sql.Storage.Engine.Transactions.{apply_entry, wal_of, delete_wal}

-- The directory that `__init__` finds.
pub record Directory : Type 0 where
  pub jsonl : Dict String (List Line)
  pub indexes : Dict String IndexFiles
  pub wals : Dict String (List WalLine)
  pub manifest : Manifest

abbrev pub files_of : String → Directory → IndexFiles
files_of name dir = elim (D.get name dir.indexes) [
  | none ↦ record { idx = []; ridx = none }
  | some fs ↦ fs
]

-- `idx_missing`
unfoldable pub is_missing : List IndexSpec → Dict String IdxFile → Bool
is_missing [] fs = false
is_missing (s ∷ specs) fs = if D.contains (file_name s.fields) fs then is_missing specs fs else true

abbrev pub registered : Manifest → Result (Dict String (List IndexSpec))
registered absent = ok []
registered corrupt = err storage_error
registered (registry specs) = ok specs

module _ {S : Type 0} ⦃sd : SortedDict S⦄ where
  -- The manager of one collection of the manifest.
  unfoldable pub open_manager : String → List IndexSpec → Directory → Result (IndexManager S)
  open_manager name specs dir =
      let im = Im.load {S = S} (Im.init specs (files_of name dir)) in
      if is_missing specs (files_of name dir).idx
      then (do live ← Store.scan (D.get name dir.jsonl); ok (Im.save (Im.rebuild live im)))
      else ok im

  unfoldable pub open_all :
      Dict String (List IndexSpec) → Directory → Result (Dict String (IndexManager S))
  open_all [] dir = ok []
  open_all ((name, specs) ∷ rest) dir = do
    im ← open_manager name specs dir
    ims ← open_all rest dir
    ok ((name, im) ∷ ims)

  unfoldable pub load_manifest : Directory → Result (Engine S)
  load_manifest dir = do
    specs ← registered dir.manifest
    ims ← open_all specs dir
    ok (record {
      managers = ims;
      specs = specs;
      jsonl = dir.jsonl;
      wals = dir.wals;
      manifest = dir.manifest;
    })

  -- The inner loop of `_recover_wal`: an entry that fails is skipped.
  unfoldable pub replay : List WalEntry → Engine S → Engine S
  replay [] e = e
  replay (entry ∷ es) e = elim (apply_entry entry e) [ ok e' ↦ replay es e' | err x ↦ replay es e ]

  -- One round of the outer loop: a log that cannot be read is dropped.
  unfoldable pub recover_file : String → Engine S → Engine S
  recover_file path e = elim (Wal.read_entries (wal_of path e)) [
    | ok entries ↦ delete_wal path (replay entries e)
    | err x ↦ delete_wal path e
  ]

  unfoldable pub recover_files : List String → Engine S → Engine S
  recover_files [] e = e
  recover_files (path ∷ paths) e = recover_files paths (recover_file path e)

  -- `_recover_wal`, over the log files in the order of the directory
  unfoldable pub recover_wal : Engine S → Engine S
  recover_wal e = recover_files (map (λ w. w.0) e.wals) e

  unfoldable pub open_engine : Directory → Result (Engine S)
  open_engine dir = do e ← load_manifest dir; ok (recover_wal e)
