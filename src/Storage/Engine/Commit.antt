-- ===== src/Storage/Engine/Commit.antt =====
-- `commit` and `rollback` against the operations that were buffered.
use text.Mathlib.TextPositions.{eq_refl}
use jsonpy_sql.Prelude.{◌≡◌, refl, ◌∙◌, ap, String, none, List, [], All}
use jsonpy_sql.Python.Dict.{string_key, get-del}
use jsonpy_sql.Python.Result.{ok, ◌>>=◌}
use jsonpy_sql.Storage.SortedDict.{SortedDict}
use jsonpy_sql.Storage.Wal as Wal
use jsonpy_sql.Storage.Wal.{Op, WalEntry, WalLine, iter_raw, values}
use jsonpy_sql.Storage.Wal.Dedup.{last_for, dedup, read_entries-iter_raw, last_for-dedup, All-dedup}
use jsonpy_sql.Storage.Engine.State.{Engine, require, lock, get}
use jsonpy_sql.Storage.Engine.Transactions.{wal_of, delete_wal, commit}
use jsonpy_sql.Storage.Engine.Documents.{IsReady}
use jsonpy_sql.Storage.Engine.Entries.{decide, apply_all_lem}

module _ {S : Type 0} where
  -- The log is no part of what readers see.
  pub get-delete_wal : (path c j : String) (e : Engine S) → get c j (delete_wal path e) ≡ get c j e
  unfolding get delete_wal require lock
  get-delete_wal path c j e = refl

  pub wal_of-delete_wal : (path : String) (e : Engine S) → wal_of path (delete_wal path e) ≡ none
  unfolding delete_wal
  wal_of-delete_wal path e = rw (get-del, eq_refl)

module _ {S : Type 0} ⦃sd : SortedDict S⦄ where
  -- If the log of a transaction holds the entries `es`, and their collections are ready, `commit`
  -- succeeds and removes the log; each document is then as the last entry for it, in the order of
  -- buffering, says, and documents without an entry are as before.
  pub commit_lem :
      (path : String) (es : List WalEntry) (e : Engine S)
      → iter_raw (wal_of path e) ≡ ok es
      → All (λ entry. IsReady entry.collection e) es
      → (e' : Engine S) × (commit path e ≡ (ok tt, e'))
        × ((c j : String) → get c j e' ≡ decide (last_for c j es) (get c j e))
        × (wal_of path e' ≡ none)
  unfolding commit
  commit_lem path es e r h =
      let kept = values (dedup [] es) in
      let read : Wal.read_entries (wal_of path e) ≡ ok kept =
        read_entries-iter_raw (wal_of path e) ∙ ap (λ x. x >>= λ l. ok (values (dedup [] l))) r in
      let (e1, a, w, x) =
        apply_all_lem kept e (All-dedup (λ entry. IsReady entry.collection e) [] es h tt) in
      (
        delete_wal path e1,
        rw (read, commit, a),
        λ c j. get-delete_wal path c j e1 ∙ w c j ∙ rw (last_for-dedup c j es),
        wal_of-delete_wal path e1,
      )
