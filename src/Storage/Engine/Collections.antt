-- ===== src/Storage/Engine/Collections.antt =====
-- `create_collection`, `drop_collection` and the manifest.
use jsonpy_sql.Prelude.{String, Bool, none, List, [], if◌then◌else◌}
use jsonpy_sql.Python.Dict as D
use jsonpy_sql.Python.Dict.{Dict, string_key}
use jsonpy_sql.Python.Result.{Result, ok, err, collection_exists_error, ◌>>=◌}
use jsonpy_sql.Storage.SortedDict.{SortedDict}
use jsonpy_sql.Storage.DocumentStore as Store
use jsonpy_sql.Storage.IndexManager as Im
use jsonpy_sql.Storage.IndexManager.{IndexManager, IndexFiles, IndexSpec}
use jsonpy_sql.Storage.Engine.State.{Engine, registry, file_of, put_file, require}

-- `_save_manifest`
unfoldable pub save_manifest : {S : Type 0} → Engine S → Engine S
save_manifest e = record e { manifest = registry e.specs }

abbrev pub no_files : IndexFiles
no_files = record { idx = []; ridx = none }

module _ {S : Type 0} ⦃sd : SortedDict S⦄ where
  -- `destroy` of the manager removes its files with it: nothing else refers to them.
  unfoldable pub drop_collection : String → Engine S → Result (Engine S)
  drop_collection name e = do
    im ← require name e
    ok (
        save_manifest (record e {
          jsonl = put_file name (Store.destroy (file_of name e)) e.jsonl;
          managers = D.del name e.managers;
          specs = D.del name e.specs;
        }))

  -- The part after the test for an existing collection.
  unfoldable pub create_new : String → List IndexSpec → Engine S → Result (Engine S)
  create_new name indexes e = do
    store ← Store.create (file_of name e)
    ok (
        save_manifest (record e {
          jsonl = put_file name store e.jsonl;
          managers = D.set name (Im.save (Im.init indexes no_files)) e.managers;
          specs = D.set name indexes e.specs;
        }))

  unfoldable pub create_collection : String → List IndexSpec → Bool → Engine S → Result (Engine S)
  create_collection name indexes drop_if_exists e =
      if D.contains name e.managers
      then (if drop_if_exists
          then (do dropped ← drop_collection name e; create_new name indexes dropped)
          else err collection_exists_error)
      else create_new name indexes e
