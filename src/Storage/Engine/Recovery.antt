-- ===== src/Storage/Engine/Recovery.antt =====
-- What the recovery of one log makes of the documents.
use jsonpy_sql.Prelude.{
  ℕ, zero, suc, ◌≡◌, refl, ◌∙◌, ap, String, Option, none, some, List, [], ◌∷◌, take, arith, All,
}
use jsonpy_sql.Python.Dict.{string_key}
use jsonpy_sql.Python.Value.{Document}
use jsonpy_sql.Python.Result.{Result, ok, err, ◌>>=◌}
use jsonpy_sql.Storage.SortedDict.{SortedDict}
use jsonpy_sql.Storage.Wal as Wal
use jsonpy_sql.Storage.Wal.{WalEntry, WalLine, iter_raw, values}
use jsonpy_sql.Storage.Wal.Dedup.{last_for, dedup, read_entries-iter_raw, last_for-dedup, All-dedup}
use jsonpy_sql.Storage.Engine.State.{Engine, get}
use jsonpy_sql.Storage.Engine.Transactions.{wal_of, apply_entry, apply_all}
use jsonpy_sql.Storage.Engine.Startup.{replay, recover_file}
use jsonpy_sql.Storage.Engine.Documents.{IsReady}
use jsonpy_sql.Storage.Engine.Entries.{effect, decide, apply_all_lem}
use jsonpy_sql.Storage.Engine.Commit.{get-delete_wal, wal_of-delete_wal}

module _ {S : Type 0} ⦃sd : SortedDict S⦄ where
  replay-apply_all :
      (es : List WalEntry) (e e' : Engine S) → apply_all es e ≡ (ok tt, e') → replay es e ≡ e'
  unfolding replay apply_all
  replay-apply_all [] e e' h = ap (λ x. x.1) h
  replay-apply_all (entry ∷ es) e e' h =
      go (apply_entry entry e) (λ x q. replay-apply_all es x e' q) h
    where
      go :
          (r : Result (Engine S))
          → ((x : Engine S) → apply_all es x ≡ (ok tt, e') → replay es x ≡ e')
          → elim r as (λ k. Result (Unit {0}) × Engine S) [
            | ok x ↦ apply_all es x
            | err y ↦ (err y, e)
          ]
            ≡ (ok tt, e')
          → elim r [ ok x ↦ replay es x | err y ↦ replay es e ] ≡ e'
      go (ok x) ih q = ih x q
      go (err y) ih q = absurd (cc (ap (λ t. t.0) q))

  -- A log whose entries are for ready collections is applied whole by its recovery, and removed,
  -- whether or not `commit` was ever called.
  pub recover_file_lem :
      (path : String) (es : List WalEntry) (e : Engine S)
      → iter_raw (wal_of path e) ≡ ok es
      → All (λ entry. IsReady entry.collection e) es
      → ((c j : String) → get c j (recover_file path e) ≡ decide (last_for c j es) (get c j e))
        × (wal_of path (recover_file path e) ≡ none)
  unfolding recover_file
  recover_file_lem path es e r h =
      let kept = values (dedup [] es) in
      let read : Wal.read_entries (wal_of path e) ≡ ok kept =
        read_entries-iter_raw (wal_of path e) ∙ ap (λ x. x >>= λ l. ok (values (dedup [] l))) r in
      let (e1, a, w, x) =
        apply_all_lem kept e (All-dedup (λ entry. IsReady entry.collection e) [] es h tt) in
      (
        λ c j.
            rw (read, recover_file, replay-apply_all kept e e1 a)
              (get-delete_wal path c j e1 ∙ w c j ∙ rw (last_for-dedup c j es)),
        rw (read, recover_file) (wal_of-delete_wal path (replay kept e)),
      )

-- Deciding again by entries that have the last word changes nothing.
pub decide_again :
    (l k : Option WalEntry) (r : Result (Option Document))
    → (l ≡ none → k ≡ none)
    → decide l (decide k r) ≡ decide l r
decide_again none k r h = rw (h refl)
decide_again (some x) none r h = refl
decide_again (some x) (some y) (ok o) h = refl
decide_again (some x) (some y) (err z) h = refl

pub last_for-take :
    (n : ℕ) (c j : String) (es : List WalEntry)
    → last_for c j es ≡ none
    → last_for c j (take n es) ≡ none
last_for-take zero c j es h = refl
last_for-take (suc n) c j [] h = refl
last_for-take (suc n) c j (e ∷ es) h = ground (arith, last_for-take n c j es)

pub All-take : (P : WalEntry → Type 0) (n : ℕ) (es : List WalEntry) → All P es → All P (take n es)
All-take P zero es h = tt
All-take P (suc n) [] h = tt
All-take P (suc n) (e ∷ es) h = (h.0, All-take P n es h.1)

pub decide_ok :
    (l : Option WalEntry) {r : Result (Option Document)} {o : Option Document}
    → r ≡ ok o
    → (o' : Option Document) × (decide l r ≡ ok o')
decide_ok none {o = o} h = (o, h)
decide_ok (some x) h = (effect x, rw h)
