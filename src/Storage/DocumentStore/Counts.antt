-- ===== src/Storage/DocumentStore/Counts.antt =====
-- What `count_lines` counts: lines, not documents.
use jsonpy_sql.Prelude.{
  ℕ, ◌+◌, ◌≡◌, refl, ◌∙◌, subst, String, some, List, [], ◌∷◌, ◌++◌, map, arith, length,
  if◌then◌else◌,
}
use jsonpy_sql.Python.Dict as D
use jsonpy_sql.Python.Dict.{get-set}
use jsonpy_sql.Python.Value.{value_key, truthy, Document, field}
use jsonpy_sql.Python.Result.{ok, ◌>>=◌}
use jsonpy_sql.Storage.DocumentStore.{
  deleted_key, Line, json, blank, corrupt, File, write_line, append, tombstone, iter_lines, parse,
  scan, compact, count_loop, count_lines, non_empty,
}
use jsonpy_sql.Storage.DocumentStore.Reads.{non_empty-append}
use jsonpy_sql.Storage.DocumentStore.Scan.{IsSeen}
use jsonpy_sql.Storage.DocumentStore.Compaction.{
  entries, IsSeen-entries, non_empty-map, scan-IsSeen,
}

count_loop-entries :
    (n : ℕ) (ds : List Document)
    → IsSeen (entries ds)
    → count_loop n 0 (map json ds) ≡ ok (n + length ds, 0)
unfolding count_loop parse
count_loop-entries n [] h = ground arith
count_loop-entries n (d ∷ ds) h = rw h.1.2 (ground (arith, count_loop-entries (n + 1) ds h.2))

-- If a scan succeeds, then after compaction to what it yields, the file has one line for each of
-- these documents, and no tombstone.
pub count_lines-compact :
    (f : File) (docs : List Document)
    → scan f ≡ ok docs
    → count_lines (compact docs f) ≡ ok (length docs, 0)
unfolding count_lines compact iter_lines
count_lines-compact f docs h =
    let (s, seen, live) = scan-IsSeen f docs h in
    let valid : IsSeen (entries docs) =
      subst (λ ds. IsSeen (entries ds)) live (IsSeen-entries s seen) in
    rw (non_empty-map docs) (count_loop-entries 0 docs valid ∙ ground arith)

-- One more record.
abbrev counted : Document → ℕ × ℕ → ℕ × ℕ
counted rec (total, dead) = (total + 1, if truthy (field deleted_key rec) then dead + 1 else dead)

count_loop-append :
    (n m : ℕ) (ls : List Line) (rec : Document)
    → count_loop n m (ls ++ json rec ∷ []) ≡ (count_loop n m ls >>= λ c. ok (counted rec c))
unfolding count_loop parse
count_loop-append n m [] rec = refl
count_loop-append n m (blank ∷ ls) rec = refl
count_loop-append n m (corrupt ∷ ls) rec = refl
count_loop-append n m (json d ∷ ls) rec = count_loop-append (n + 1) _ ls rec

pub count_lines-write_line :
    (rec : Document) (ls : List Line)
    → count_lines (write_line rec (some ls)) ≡ (count_lines (some ls) >>= λ c. ok (counted rec c))
unfolding count_lines write_line iter_lines
count_lines-write_line rec ls =
    rw (non_empty-append ls (json rec ∷ [])) (count_loop-append 0 0 (non_empty ls) rec)

-- An `append` counts as one more line, whether or not it supersedes a line with the same id.
pub count_lines-append :
    (id : String) (d : Document) (ls : List Line)
    → count_lines (append id d (some ls)) ≡ (count_lines (some ls) >>= λ c. ok (counted d c))
unfolding append
count_lines-append id d ls = simp (count_lines-write_line, get-set)

-- A tombstone counts as one more line and as one more tombstone.
pub count_lines-tombstone :
    (id : String) (ls : List Line)
    → count_lines (tombstone id (some ls)) ≡ (count_lines (some ls) >>= λ c. ok (c.0 + 1, c.1 + 1))
unfolding tombstone D.get truthy
count_lines-tombstone id ls = simp (count_lines-write_line)
