-- ===== src/Storage/Engine/Failures.antt =====
-- Transactions and starts that go wrong.
use jsonpy_sql.Prelude.{◌≡◌, ◌∙◌, ap, String, Option, none, some, List, ◌∷◌, arith, eq_iff}
use jsonpy_sql.Python.Dict as D
use jsonpy_sql.Python.Dict.{string_key, get-set}
use jsonpy_sql.Python.Result.{
  Error, ok, err, storage_error, wal_replay_error, ok-injective, call_returned,
}
use jsonpy_sql.Storage.SortedDict.{SortedDict}
use jsonpy_sql.Storage.DocumentStore as Store
use jsonpy_sql.Storage.IndexManager.{IndexManager}
use jsonpy_sql.Storage.Wal as Wal
use jsonpy_sql.Storage.Wal.{Op, WalEntry}
use jsonpy_sql.Storage.Engine.State.{Engine, or_storage_error, file_of, require, write_back, get}
use jsonpy_sql.Storage.Engine.Transactions.{wal_of, apply_op, apply_entry, apply_all, commit}
use jsonpy_sql.Storage.Engine.Startup.{recover_file}
use jsonpy_sql.Storage.Engine.Documents.{IsReady}
use jsonpy_sql.Storage.Engine.Entries.{effect, IsOverwrite, apply_entry-IsOverwrite}
use jsonpy_sql.Storage.Engine.Commit.{get-delete_wal, wal_of-delete_wal}

module _ {S : Type 0} ⦃sd : SortedDict S⦄ where
  -- The commit of a transaction with no operation raises `WALReplayError`: its log was never made.
  pub commit_without_log :
      (path : String) (e : Engine S)
      → wal_of path e ≡ none
      → commit path e ≡ (err wal_replay_error, e)
  unfolding commit Wal.read_entries
  commit_without_log path e h = rw (h, commit)

  -- A log that cannot be read is dropped by the next start, and no document changes.
  pub recover_unreadable :
      (path : String) (e : Engine S) {x : Error}
      → Wal.read_entries (wal_of path e) ≡ err x
      → ((c j : String) → get c j (recover_file path e) ≡ get c j e)
        × (wal_of path (recover_file path e) ≡ none)
  unfolding recover_file
  recover_unreadable path e h = (
    λ c j. rw (h, recover_file) (get-delete_wal path c j e),
    rw (h, recover_file) (wal_of-delete_wal path e),
  )

  registered_apply_op :
      (o : Op) (entry : WalEntry) (im : IndexManager S) (e e' : Engine S) (c : String)
      → D.get entry.collection e.managers ≡ some im
      → apply_op o entry im e ≡ ok e'
      → D.get c e.managers ≡ none
      → D.get c e'.managers ≡ none
  unfolding apply_op write_back
  registered_apply_op Op.insert entry im e e' c p h n =
      rw (← ok-injective h)
        (get-set entry.collection c _ e.managers ∙ ground (arith, eq_iff entry.collection c))
  registered_apply_op Op.update entry im e e' c p h n =
      let (old, q, r) = call_returned (Store.get entry.doc_id (file_of entry.collection e)) _ h in
      rw (← ok-injective r)
        (get-set entry.collection c _ e.managers ∙ ground (arith, eq_iff entry.collection c))
  registered_apply_op Op.delete entry im e e' c p h n =
      let (old, q, r) = call_returned (Store.get entry.doc_id (file_of entry.collection e)) _ h in
      rw (← ok-injective r)
        (get-set entry.collection c _ e.managers ∙ ground (arith, eq_iff entry.collection c))

  registered_apply_entry :
      (entry : WalEntry) (e e' : Engine S) (c : String)
      → apply_entry entry e ≡ ok e'
      → D.get c e.managers ≡ none
      → D.get c e'.managers ≡ none
  unfolding apply_entry require
  registered_apply_entry entry e e' c h n =
      let (im, p, q) = call_returned (or_storage_error (D.get entry.collection e.managers)) _ h in
      registered_apply_op entry.op entry im e e' c (found (D.get entry.collection e.managers) p) q n
    where
      found :
          (o : Option (IndexManager S)) {im : IndexManager S}
          → or_storage_error o ≡ ok im
          → o ≡ some im
      found none r = absurd (cc)
      found (some x) r = ap some (ok-injective r)

  apply_unregistered :
      (entry : WalEntry) (e : Engine S)
      → D.get entry.collection e.managers ≡ none
      → apply_entry entry e ≡ err storage_error
  unfolding apply_entry require
  apply_unregistered entry e h = rw h

  -- If the log can be read, the collection of the first entry that is kept can be read, and the
  -- second names an unregistered collection, `commit` raises with the first entry applied and the
  -- log still there: the transaction is not rolled back.
  pub commit_stops :
      (path : String) (x y : WalEntry) (rest : List WalEntry) (e : Engine S)
      → Wal.read_entries (wal_of path e) ≡ ok (x ∷ y ∷ rest)
      → IsReady x.collection e
      → D.get y.collection e.managers ≡ none
      → (e' : Engine S) × (commit path e ≡ (err storage_error, e'))
        × IsOverwrite x.collection x.doc_id (effect x) e e'
        × (wal_of path e' ≡ wal_of path e)
  unfolding commit apply_all
  commit_stops path x y rest e r h n =
      let (e', a, w, g) = apply_entry-IsOverwrite x e h in
      let b = apply_unregistered y e' (registered_apply_entry x e e' y.collection a n) in
      (e', rw (r, commit, a, apply_all, b, apply_all), w, ap (D.get path) g)
