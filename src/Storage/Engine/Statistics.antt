-- ===== src/Storage/Engine/Statistics.antt =====
-- `CollectionStats.deleted_ratio` of storage/models.py, and the bounds on what `get_stats` reports.
use jsonpy_sql.Prelude.{
  ℕ, ◌+◌, ◌-◌, ◌≤◌, ◌<◌, ◌≡◌, sym, ap, String, Option, none, some, List, [], ◌∷◌, arith, length,
  if◌then◌else◌, eqb,
}
use jsonpy_sql.Python.Dict as D
use jsonpy_sql.Python.Dict.{Dict, string_key}
use jsonpy_sql.Python.Value.{Value, value_key, truthy, Document, field}
use jsonpy_sql.Python.Result.{ok, ok-injective, call_returned}
use jsonpy_sql.Storage.SortedDict.{SortedDict}
use jsonpy_sql.Storage.DocumentStore as Store
use jsonpy_sql.Storage.DocumentStore.{
  id_key, deleted_key, Line, json, blank, corrupt, File, iter_lines, parse, scan_step, scan_loop,
  live_docs, count_loop, count_lines, non_empty,
}
use jsonpy_sql.Storage.Engine.State.{
  Engine, CollectionStats, file_of, require, lock, scan, get_stats, or_storage_error,
}

-- The quotient as its numerator and its denominator, which the source divides as floats
unfoldable pub deleted_ratio : CollectionStats → ℕ × ℕ
deleted_ratio s = if eqb s.total_lines 0 then (0, 1) else (s.deleted_count, s.total_lines)

abbrev Seen : Type 0
Seen = Dict Value (Option Document)

live_docs-set_none :
    (k : Value) (s : Seen) → length (live_docs (D.set k none s)) ≤ length (live_docs s)
unfolding live_docs D.set
live_docs-set_none k [] = omega arith
live_docs-set_none k ((i, none) ∷ s) = ground (arith, live_docs-set_none k s)
live_docs-set_none k ((i, some d) ∷ s) = ground (arith, live_docs-set_none k s)

live_docs-set_some :
    (k : Value) (c : Document) (s : Seen)
    → length (live_docs (D.set k (some c) s)) ≤ length (live_docs s) + 1
unfolding live_docs D.set
live_docs-set_some k c [] = omega arith
live_docs-set_some k c ((i, none) ∷ s) = ground (arith, live_docs-set_some k c s)
live_docs-set_some k c ((i, some d) ∷ s) = ground (arith, live_docs-set_some k c s)

live_docs-scan_step :
    (s : Seen) (rec : Document) (n m : ℕ)
    → length (live_docs s) + m ≤ n
    → length (live_docs (scan_step s rec)) + (if truthy (field deleted_key rec) then m + 1 else m)
      ≤ n + 1
unfolding scan_step
live_docs-scan_step s rec n m h =
    ground
      (arith, live_docs-set_none (field id_key rec) s, live_docs-set_some (field id_key rec) rec s)

loops_bound :
    (ls : List Line) (s s' : Seen) (n m : ℕ) (c : ℕ × ℕ)
    → length (live_docs s) + m ≤ n
    → scan_loop s ls ≡ ok s'
    → count_loop n m ls ≡ ok c
    → length (live_docs s') + c.1 ≤ c.0
unfolding scan_loop count_loop parse
loops_bound [] s s' n m c h p q =
    let same : s ≡ s' = ok-injective p in
    let counts : (n, m) ≡ c = ok-injective q in rw (← same, ← counts) h
loops_bound (blank ∷ ls) s s' n m c h p q = absurd (cc)
loops_bound (corrupt ∷ ls) s s' n m c h p q = absurd (cc)
loops_bound (json rec ∷ ls) s s' n m c h p q =
    loops_bound ls (scan_step s rec) s' (n + 1) _ c (live_docs-scan_step s rec n m h) p q

count_lines-bound :
    (f : File) (docs : List Document) (c : ℕ × ℕ)
    → Store.scan f ≡ ok docs
    → count_lines f ≡ ok c
    → length docs + c.1 ≤ c.0
unfolding Store.scan count_lines iter_lines
count_lines-bound none docs c p q = absurd (cc)
count_lines-bound (some ls) docs c p q =
    let (seen, looped, live) = call_returned (scan_loop [] (non_empty ls)) _ p in
    rw (← ok-injective live)
      (loops_bound (non_empty ls) [] seen 0 0 c (unfold live_docs in omega arith) looped q)

consistent :
    (s : CollectionStats) (docs : List Document) (c : ℕ × ℕ)
    → s.document_count ≡ c.0 - c.1
    → s.deleted_count ≡ c.1
    → s.total_lines ≡ c.0
    → length docs + c.1 ≤ c.0
    → (s.document_count + s.deleted_count ≡ s.total_lines)
      × (length docs ≤ s.document_count)
      × (0 < (deleted_ratio s).1)
      × ((deleted_ratio s).0 ≤ (deleted_ratio s).1)
unfolding deleted_ratio
consistent s docs c p q r h = (omega arith, omega arith, ground arith, ground arith)

module _ {S : Type 0} ⦃sd : SortedDict S⦄ where
  -- What a successful `get_stats` reports of a collection that can be scanned is consistent: the
  -- documents and the deleted ones make up the lines, there are no fewer documents than a scan
  -- yields, and the ratio of deleted lines has a denominator above 0 and is at most 1.
  pub get_stats_bounds :
      (size_of : List Line → ℕ) (col : String) (e : Engine S) (s : CollectionStats)
      (docs : List Document)
      → get_stats size_of col e ≡ ok s
      → scan col e ≡ ok docs
      → (s.document_count + s.deleted_count ≡ s.total_lines)
        × (length docs ≤ s.document_count)
        × (0 < (deleted_ratio s).1)
        × ((deleted_ratio s).0 ≤ (deleted_ratio s).1)
  unfolding get_stats scan
  get_stats_bounds size_of col e s docs h k =
      let (im, found, h1) = call_returned (require col e) _ h in
      let (counts, counted, h2) = call_returned (Store.count_lines (file_of col e)) _ h1 in
      let (ls, opened, h3) = call_returned (or_storage_error (file_of col e)) _ h2 in
      let (im', found', k1) = call_returned (require col e) _ k in
      let (u, locked, k2) = call_returned (lock col e) _ k1 in
      let bound = count_lines-bound (file_of col e) docs counts k2 counted in
      let same = sym (ok-injective h3) in
      consistent s docs counts (ap (λ t. t.document_count) same) (ap (λ t. t.deleted_count) same)
        (ap (λ t. t.total_lines) same) bound
