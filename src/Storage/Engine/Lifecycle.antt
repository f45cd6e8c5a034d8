-- ===== src/Storage/Engine/Lifecycle.antt =====
-- A transaction from its first operation to its end: commit or rollback.
use mathlib.Core.List.{append_assoc}
use text.Mathlib.TextPositions.{eq_refl}
use jsonpy_sql.Prelude.{◌≡◌, refl, ◌∙◌, ap, String, none, some, List, [], ◌∷◌, ◌++◌, All}
use jsonpy_sql.Python.Dict as D
use jsonpy_sql.Python.Dict.{string_key, get-set, get-del}
use jsonpy_sql.Python.Result.{ok, ◌>>=◌}
use jsonpy_sql.Storage.SortedDict.{SortedDict}
use jsonpy_sql.Storage.Wal as Wal
use jsonpy_sql.Storage.Wal.{WalEntry, WalFile, WalLine, iter_raw}
use jsonpy_sql.Storage.Wal.Dedup.{last_for, so_far, iter_raw-append}
use jsonpy_sql.Storage.Engine.State.{Engine, require, lock, get}
use jsonpy_sql.Storage.Engine.Transactions.{wal_of, put_wal, buffer, rollback, commit}
use jsonpy_sql.Storage.Engine.Documents.{IsReady}
use jsonpy_sql.Storage.Engine.Entries.{decide}
use jsonpy_sql.Storage.Engine.Commit.{get-delete_wal, wal_of-delete_wal, commit_lem}

get-put_wal :
    (path : String) (f : WalFile) (fs : D.Dict String (List WalLine))
    → D.get path (put_wal path f fs) ≡ f
get-put_wal path none fs = rw (get-del, eq_refl)
get-put_wal path (some ls) fs = rw (get-set, eq_refl)

so_far_of : (f : WalFile) {es : List WalEntry} → iter_raw f ≡ ok es → so_far f ≡ ok es
unfolding iter_raw
so_far_of none h = absurd (cc)
so_far_of (some ls) h = h

module _ {S : Type 0} where
  -- The operations of one transaction, buffered in a row.
  abbrev pub buffer_all : String → List WalEntry → Engine S → Engine S
  buffer_all path [] e = e
  buffer_all path (x ∷ es) e = buffer_all path es (buffer path x e)

  get-buffer :
      (path c j : String) (x : WalEntry) (e : Engine S) → get c j (buffer path x e) ≡ get c j e
  unfolding buffer get require lock
  get-buffer path c j x e = refl

  pub get-buffer_all :
      (path c j : String) (es : List WalEntry) (e : Engine S)
      → get c j (buffer_all path es e) ≡ get c j e
  get-buffer_all path c j [] e = refl
  get-buffer_all path c j (x ∷ es) e =
      get-buffer_all path c j es (buffer path x e) ∙ get-buffer path c j x e

  All-buffer_all :
      (path : String) (bs es : List WalEntry) (e : Engine S)
      → All (λ entry. IsReady entry.collection e) es
      → All (λ entry. IsReady entry.collection (buffer_all path bs e)) es
  All-buffer_all path bs [] e h = tt
  All-buffer_all path bs (x ∷ es) e h = (
    λ j. ((h.0 j).0, get-buffer_all path x.collection j bs e ∙ (h.0 j).1),
    All-buffer_all path bs es e h.1,
  )

  iter_raw-buffer :
      (path : String) (x : WalEntry) (e : Engine S)
      → iter_raw (wal_of path (buffer path x e))
        ≡ (so_far (wal_of path e) >>= λ es. ok (es ++ x ∷ []))
  unfolding buffer
  iter_raw-buffer path x e =
      ap iter_raw (get-put_wal path (Wal.append x (wal_of path e)) e.wals)
      ∙ iter_raw-append x (wal_of path e)

  pub iter_raw-buffer_all :
      (path : String) (x : WalEntry) (es xs : List WalEntry) (e : Engine S)
      → so_far (wal_of path e) ≡ ok xs
      → iter_raw (wal_of path (buffer_all path (x ∷ es) e)) ≡ ok (xs ++ x ∷ es)
  iter_raw-buffer_all path x [] xs e h = iter_raw-buffer path x e ∙ rw h
  iter_raw-buffer_all path x (y ∷ es) xs e h =
      iter_raw-buffer_all path y es (xs ++ x ∷ []) (buffer path x e)
        (so_far_of (wal_of path (buffer path x e)) (iter_raw-buffer path x e ∙ rw h))
      ∙ ap ok (append_assoc xs (x ∷ []) (y ∷ es))

module _ {S : Type 0} ⦃sd : SortedDict S⦄ where
  -- A transaction without a log so far buffers one or more operations on collections that can be
  -- read, and commits: `commit` succeeds, each document is then as the last operation on it says,
  -- documents that no operation names are as before, and the log is gone.
  pub commit-buffer_all :
      (path : String) (x : WalEntry) (es : List WalEntry) (e : Engine S)
      → wal_of path e ≡ none
      → All (λ entry. IsReady entry.collection e) (x ∷ es)
      → (e' : Engine S) × (commit path (buffer_all path (x ∷ es) e) ≡ (ok tt, e'))
        × ((c j : String) → get c j e' ≡ decide (last_for c j (x ∷ es)) (get c j e))
        × (wal_of path e' ≡ none)
  commit-buffer_all path x es e new h =
      let b = buffer_all path (x ∷ es) e in
      let (e', a, w, g) =
        commit_lem path (x ∷ es) b (iter_raw-buffer_all path x es [] e (rw new))
          (All-buffer_all path (x ∷ es) (x ∷ es) e h) in
      (
        e',
        a,
        λ c j. w c j ∙ ap (decide (last_for c j (x ∷ es))) (get-buffer_all path c j (x ∷ es) e),
        g,
      )

module _ {S : Type 0} where
  -- Whatever was buffered, after `rollback` every read is as before the transaction, and no log is
  -- left that a later start could apply.
  pub rollback-buffer_all :
      (path : String) (es : List WalEntry) (e : Engine S)
      → ((c j : String) → get c j (rollback path (buffer_all path es e)) ≡ get c j e)
        × (wal_of path (rollback path (buffer_all path es e)) ≡ none)
  unfolding rollback
  rollback-buffer_all path es e = (
    λ c j. get-delete_wal path c j (buffer_all path es e) ∙ get-buffer_all path c j es e,
    wal_of-delete_wal path (buffer_all path es e),
  )
