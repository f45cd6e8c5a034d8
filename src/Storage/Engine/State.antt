-- ===== src/Storage/Engine/State.antt =====
-- The state of a `StorageEngine` and of its directory, and the operations on one document. A call
-- that raises leaves the state as it was. Locks are taken to be free; an absent file cannot be
-- locked.
use jsonpy_sql.Prelude.{
  ℕ, ◌-◌, String, Bool, true, false, Option, none, some, List, [], ◌∷◌, map, filter_by,
  if◌then◌else◌, length,
}
use jsonpy_sql.Python.Dict as D
use jsonpy_sql.Python.Dict.{Dict, string_key}
use jsonpy_sql.Python.Value.{Value, str, value_eq, value_le, is_none, Document, field}
use jsonpy_sql.Python.Result.{Result, ok, err, storage_error, type_error, ◌>>=◌}
use jsonpy_sql.Storage.SortedDict.{SortedDict}
use jsonpy_sql.Storage.DocumentStore as Store
use jsonpy_sql.Storage.DocumentStore.{Line, File, id_key}
use jsonpy_sql.Storage.IndexManager as Im
use jsonpy_sql.Storage.IndexManager.{IndexManager, IndexSpec, id_or_empty}
use jsonpy_sql.Storage.Wal.{WalLine}

-- `manifest.json`
pub data Manifest : Type 0 where
  absent corrupt : Manifest
  registry : Dict String (List IndexSpec) → Manifest

-- `_stores`, `_indexes` and `_specs` have the same keys: the names of `managers`. The directory is
-- `jsonl`, `wals`, the manifest and, inside each manager, the index files.
pub record Engine (S : Type 0) : Type 0 where
  pub managers : Dict String (IndexManager S)
  pub specs : Dict String (List IndexSpec)
  pub jsonl : Dict String (List Line)
  pub wals : Dict String (List WalLine)
  pub manifest : Manifest

-- `{**document, "_id": doc_id}`
abbrev pub with_id : String → Document → Document
with_id doc_id document = D.set id_key (str doc_id) document

abbrev pub with_id? : String → Option Document → Option Document
with_id? doc_id none = none
with_id? doc_id (some old) = some (with_id doc_id old)

-- `CollectionStats` of storage/models.py
pub record CollectionStats : Type 0 where
  pub name : String
  pub document_count : ℕ
  pub deleted_count : ℕ
  pub total_lines : ℕ
  pub index_count : ℕ
  pub file_size_bytes : ℕ

abbrev pub or_storage_error {ℓ} : {A : Type ℓ} → Option A → Result A
or_storage_error none = err storage_error
or_storage_error (some a) = ok a

abbrev pub put_file : String → File → Dict String (List Line) → Dict String (List Line)
put_file col none fs = D.del col fs
put_file col (some ls) fs = D.set col ls fs

module _ {S : Type 0} where
  -- The `.jsonl` file of a collection.
  abbrev pub file_of : String → Engine S → File
  file_of col e = D.get col e.jsonl

  -- `_require`, with the manager that the caller goes on to use
  unfoldable pub require : String → Engine S → Result (IndexManager S)
  require col e = or_storage_error (D.get col e.managers)

  -- `LockManager._open`: a lock needs the file.
  unfoldable pub lock : String → Engine S → Result (Unit {0})
  lock col e = do ls ← or_storage_error (file_of col e); ok tt

  unfoldable pub write_back : String → File → IndexManager S → Engine S → Engine S
  write_back col f im e = record e {
    managers = D.set col im e.managers;
    jsonl = put_file col f e.jsonl;
  }

  unfoldable pub get : String → String → Engine S → Result (Option Document)
  get col doc_id e = do im ← require col e; u ← lock col e; Store.get doc_id (file_of col e)

  unfoldable pub scan : String → Engine S → Result (List Document)
  scan col e = do im ← require col e; u ← lock col e; Store.scan (file_of col e)

  -- `get_stats`, with the size of the file in bytes as the file system reports it
  unfoldable pub get_stats : (List Line → ℕ) → String → Engine S → Result CollectionStats
  get_stats size_of col e = do
    im ← require col e
    counts ← Store.count_lines (file_of col e)
    ls ← or_storage_error (file_of col e)
    ok (record {
      name = col;
      document_count = counts.0 - counts.1;
      deleted_count = counts.1;
      total_lines = counts.0;
      index_count = elim (D.get col e.specs) [ none ↦ 0 | some specs ↦ length specs ];
      file_size_bytes = size_of ls;
    })

-- `low <= v <= high`: the second test is made only if the first holds.
abbrev pub between : Value → Value → Value → Result Bool
between low v high = elim (value_le low v) [
  | none ↦ err type_error
  | some false ↦ ok false
  | some true ↦ elim (value_le v high) [ none ↦ err type_error | some b ↦ ok b ]
]

-- The ids of the documents whose field equals a value.
abbrev pub ids_equal : String → Value → List Document → List String
ids_equal f value docs = map id_or_empty (filter_by (λ doc. value_eq (field f doc) value) docs)

-- The ids of the documents whose field lies in a range, or the error of a comparison.
unfoldable pub ids_between : String → Value → Value → List Document → Result (List String)
ids_between f low high [] = ok []
ids_between f low high (doc ∷ docs) = do
  inside ← (if is_none (field f doc) then ok false else between low (field f doc) high)
  ids ← ids_between f low high docs
  ok (if inside then id_or_empty doc ∷ ids else ids)

module _ {S : Type 0} ⦃sd : SortedDict S⦄ where
  unfoldable pub insert : String → String → Document → Engine S → Result (Engine S)
  insert col doc_id document e = do
    im ← require col e
    u ← lock col e
    ok (
        write_back col (Store.append doc_id document (file_of col e))
          (Im.on_insert doc_id (with_id doc_id document) im) e)

  unfoldable pub update : String → String → Document → Engine S → Result (Engine S)
  update col doc_id document e = do
    im ← require col e
    u ← lock col e
    old ← Store.get doc_id (file_of col e)
    ok (
        write_back col (Store.append doc_id document (file_of col e))
          (Im.on_update doc_id (with_id? doc_id old) (with_id doc_id document) im) e)

  unfoldable pub delete : String → String → Engine S → Result (Engine S)
  delete col doc_id e = do
    im ← require col e
    u ← lock col e
    old ← Store.get doc_id (file_of col e)
    ok (
        write_back col (Store.tombstone doc_id (file_of col e))
          (Im.on_delete doc_id (with_id? doc_id old) im) e)

  unfoldable pub lookup : String → String → Value → Engine S → Result (List String)
  lookup col f value e = do
    im ← require col e
    if Im.has_index_for f im
        then ok (Im.lookup f value im)
        else do u ← lock col e; docs ← Store.scan (file_of col e); ok (ids_equal f value docs)

  unfoldable pub range_scan : String → String → Value → Value → Engine S → Result (List String)
  range_scan col f low high e = do
    im ← require col e
    if Im.has_index_for f im
        then ok (Im.range_scan f low high im)
        else do u ← lock col e; docs ← Store.scan (file_of col e); ids_between f low high docs

  unfoldable pub compact : String → Engine S → Result (Engine S)
  compact col e = do
    im ← require col e
    u ← lock col e
    live ← Store.scan (file_of col e)
    ok (write_back col (Store.compact live (file_of col e)) (Im.save (Im.rebuild live im)) e)
