-- ===== src/Storage/Engine/Transactions.antt =====
-- `_Transaction` and `_apply_entry`. A transaction is named by its log file, which
-- `begin_transaction` draws at random; the file comes into being with the first operation.
use jsonpy_sql.Prelude.{String, Option, none, some, List, [], ◌∷◌}
use jsonpy_sql.Python.Dict as D
use jsonpy_sql.Python.Dict.{Dict, string_key}
use jsonpy_sql.Python.Value.{Document}
use jsonpy_sql.Python.Result.{Error, Result, ok, err, ◌>>=◌}
use jsonpy_sql.Storage.SortedDict.{SortedDict}
use jsonpy_sql.Storage.DocumentStore as Store
use jsonpy_sql.Storage.IndexManager as Im
use jsonpy_sql.Storage.Wal as Wal
use jsonpy_sql.Storage.Wal.{Op, WalEntry, WalFile, WalLine}
use jsonpy_sql.Storage.Engine.State.{Engine, file_of, require, write_back, with_id, with_id?}

-- `entry.document or {}`
abbrev pub document_of : WalEntry → Document
document_of entry = elim entry.document [ none ↦ [] | some d ↦ d ]

-- `if old`: an empty dict counts as no document.
abbrev pub if_truthy : Option Document → Option Document
if_truthy none = none
if_truthy (some []) = none
if_truthy (some (x ∷ d)) = some (x ∷ d)

abbrev pub put_wal : String → WalFile → Dict String (List WalLine) → Dict String (List WalLine)
put_wal path none fs = D.del path fs
put_wal path (some ls) fs = D.set path ls fs

module _ {S : Type 0} where
  abbrev pub wal_of : String → Engine S → WalFile
  wal_of path e = D.get path e.wals

  -- `self._wal.append(entry)`
  unfoldable pub buffer : String → WalEntry → Engine S → Engine S
  buffer path entry e = record e { wals = put_wal path (Wal.append entry (wal_of path e)) e.wals }

  -- `self._wal.delete()`
  unfoldable pub delete_wal : String → Engine S → Engine S
  delete_wal path e = record e { wals = D.del path e.wals }

  unfoldable pub txn_insert : String → String → String → Document → Engine S → Engine S
  txn_insert path collection doc_id document = buffer path (record {
    op = Op.insert;
    collection = collection;
    doc_id = doc_id;
    document = some document;
  })

  unfoldable pub txn_update : String → String → String → Document → Engine S → Engine S
  txn_update path collection doc_id document = buffer path (record {
    op = Op.update;
    collection = collection;
    doc_id = doc_id;
    document = some document;
  })

  unfoldable pub txn_delete : String → String → String → Engine S → Engine S
  txn_delete path collection doc_id =
      buffer path
        (record { op = Op.delete; collection = collection; doc_id = doc_id; document = none })

  unfoldable pub rollback : String → Engine S → Engine S
  rollback path e = delete_wal path e

module _ {S : Type 0} ⦃sd : SortedDict S⦄ where
  -- The branches of `_apply_entry`, behind `_require`.
  unfoldable pub apply_op : Op → WalEntry → Im.IndexManager S → Engine S → Result (Engine S)
  apply_op Op.insert entry im e =
      let doc = document_of entry in
      ok (
        write_back entry.collection (Store.append entry.doc_id doc (file_of entry.collection e))
          (Im.on_insert entry.doc_id (with_id entry.doc_id doc) im) e)
  apply_op Op.update entry im e = do
    old ← Store.get entry.doc_id (file_of entry.collection e)
    ok (
        write_back entry.collection
          (Store.append entry.doc_id (document_of entry) (file_of entry.collection e))
          (Im.on_update entry.doc_id (with_id? entry.doc_id (if_truthy old))
            (with_id entry.doc_id (document_of entry)) im)
          e)
  apply_op Op.delete entry im e = do
    old ← Store.get entry.doc_id (file_of entry.collection e)
    ok (
        write_back entry.collection (Store.tombstone entry.doc_id (file_of entry.collection e))
          (Im.on_delete entry.doc_id (with_id? entry.doc_id (if_truthy old)) im) e)

  -- `_apply_entry`
  unfoldable pub apply_entry : WalEntry → Engine S → Result (Engine S)
  apply_entry entry e = do im ← require entry.collection e; apply_op entry.op entry im e

  -- The loop in `commit`: what was applied before an error stays applied.
  unfoldable pub apply_all : List WalEntry → Engine S → Result (Unit {0}) × Engine S
  apply_all [] e = (ok tt, e)
  apply_all (entry ∷ es) e = elim (apply_entry entry e) [
    | ok e' ↦ apply_all es e'
    | err x ↦ (err x, e)
  ]

  abbrev pub finish : String → Result (Unit {0}) × Engine S → Result (Unit {0}) × Engine S
  finish path (ok u, e) = (ok tt, delete_wal path e)
  finish path (err x, e) = (err x, e)

  unfoldable pub commit : String → Engine S → Result (Unit {0}) × Engine S
  commit path e = elim (Wal.read_entries (wal_of path e)) [
    | ok entries ↦ finish path (apply_all entries e)
    | err x ↦ (err x, e)
  ]

  -- `Transaction.__exit__`: commit on a clean exit, else roll back and let the exception pass.
  unfoldable pub exit : Option Error → String → Engine S → Result (Unit {0}) × Engine S
  exit none path e = commit path e
  exit (some x) path e = (err x, rollback path e)
