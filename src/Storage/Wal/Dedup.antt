-- ===== src/Storage/Wal/Dedup.antt =====
-- `read_entries` keeps, of the entries for one document, the last.
use text.Mathlib.Text.{◌==◌ as str_eq}
use jsonpy_sql.Prelude.{
  ◌≡◌, refl, ◌∙◌, ap, String, true, Option, none, some, List, [], ◌∷◌, ◌++◌, arith, if◌then◌else◌,
  ◌&&◌, All, Bool-cases, inl, inr,
}
use jsonpy_sql.Python.Dict as D
use jsonpy_sql.Python.Dict.{
  Dict, pair_key, pair_eq, pair_eq_refl, pair_eq_cong, get-set, get-cong, beq_symm,
}
use jsonpy_sql.Python.Result.{Result, ok, err, ◌>>=◌}
use jsonpy_sql.Storage.Wal.{
  WalEntry, WalLine, blank, corrupt, json, WalFile, parse_line, non_empty, iter_raw_lines, iter_raw,
  EntryMap, entry_key, read_loop, values, read_entries, append, to_dict, RawEntry,
  from_dict-to_dict,
}

-- The dict that `read_entries` builds, from the entries in file order.
abbrev pub dedup : EntryMap → List WalEntry → EntryMap
dedup m [] = m
dedup m (e ∷ es) = dedup (D.set (entry_key e) e m) es

bind_step :
    (r : Result (List WalEntry)) (e : WalEntry) (m : EntryMap)
    → (r >>= λ es. ok (dedup (D.set (entry_key e) e m) es))
      ≡ ((r >>= λ es. ok (e ∷ es)) >>= λ es. ok (dedup m es))
bind_step (ok es) e m = refl
bind_step (err x) e m = refl

read_loop-iter_raw :
    (m : EntryMap) (ls : List WalLine)
    → read_loop m ls ≡ (iter_raw_lines ls >>= λ es. ok (dedup m es))
unfolding read_loop iter_raw_lines
read_loop-iter_raw m [] = refl
read_loop-iter_raw m (line ∷ ls) =
    go (parse_line line) (λ e. read_loop-iter_raw (D.set (entry_key e) e m) ls)
  where
    go :
        (r : Result WalEntry)
        → ((e : WalEntry)
            → read_loop (D.set (entry_key e) e m) ls
              ≡ (iter_raw_lines ls >>= λ es. ok (dedup (D.set (entry_key e) e m) es)))
        → (r >>= λ e. read_loop (D.set (entry_key e) e m) ls)
          ≡ ((r >>= λ e. iter_raw_lines ls >>= λ es. ok (e ∷ es)) >>= λ es. ok (dedup m es))
    go (ok e) ih = ih e ∙ bind_step (iter_raw_lines ls) e m
    go (err x) ih = refl

pub read_entries-iter_raw :
    (f : WalFile) → read_entries f ≡ (iter_raw f >>= λ es. ok (values (dedup [] es)))
unfolding read_entries iter_raw
read_entries-iter_raw none = refl
read_entries-iter_raw (some ls) =
    ap (λ r. r >>= λ m. ok (values m)) (read_loop-iter_raw [] (non_empty ls))
    ∙ go (iter_raw_lines (non_empty ls))
  where
    go :
        (r : Result (List WalEntry))
        → ((r >>= λ es. ok (dedup [] es)) >>= λ m. ok (values m))
          ≡ (r >>= λ es. ok (values (dedup [] es)))
    go (ok es) = refl
    go (err x) = refl

-- The entry that decides about one document: the last one for it.
abbrev pub last_for : String → String → List WalEntry → Option WalEntry
last_for c j [] = none
last_for c j (e ∷ es) = elim (last_for c j es) [
  | some l ↦ some l
  | none ↦ if str_eq e.collection c && str_eq e.doc_id j then some e else none
]

-- Every entry stands under its own key, and no key stands twice.
abbrev pub IsKeyed : EntryMap → Type 0
IsKeyed [] = Unit
IsKeyed ((k, e) ∷ m) = (pair_eq k (entry_key e) ≡ true) × (D.get k m ≡ none) × IsKeyed m

IsKeyed-set : (e : WalEntry) (m : EntryMap) → IsKeyed m → IsKeyed (D.set (entry_key e) e m)
unfolding D.set D.get
IsKeyed-set e [] h = (pair_eq_refl (entry_key e), refl, tt)
IsKeyed-set e ((k, x) ∷ m) h = elim (Bool-cases (pair_eq k (entry_key e))) [
  | inl q ↦ rw q (q, h.1, h.2)
  | inr q ↦ rw q (
    h.0,
    get-set (entry_key e) k e m ∙ ground (arith, beq_symm (entry_key e) k, h.1),
    IsKeyed-set e m h.2,
  )
]

last_for-values :
    (c j : String) (m : EntryMap) → IsKeyed m → last_for c j (values m) ≡ D.get (c, j) m
unfolding D.get
last_for-values c j [] h = refl
last_for-values c j ((k, e) ∷ m) h =
    ground (
      arith,
      last_for-values c j m h.2,
      pair_eq_cong k (entry_key e) (c, j) h.0,
      get-cong k (c, j) m,
    )

abbrev or_else : Option WalEntry → Option WalEntry → Option WalEntry
or_else none o = o
or_else (some e) o = some e

get-dedup :
    (c j : String) (m : EntryMap) (es : List WalEntry)
    → D.get (c, j) (dedup m es) ≡ or_else (last_for c j es) (D.get (c, j) m)
get-dedup c j m [] = refl
get-dedup c j m (e ∷ es) =
    get-dedup c j (D.set (entry_key e) e m) es ∙ ground (arith, get-set (entry_key e) (c, j) e m)

pub IsKeyed-dedup : (m : EntryMap) (es : List WalEntry) → IsKeyed m → IsKeyed (dedup m es)
IsKeyed-dedup m [] h = h
IsKeyed-dedup m (e ∷ es) h = IsKeyed-dedup (D.set (entry_key e) e m) es (IsKeyed-set e m h)

-- For every document the entries that `read_entries` keeps are decided by the same entry as all of
-- the entries of the file.
pub last_for-dedup :
    (c j : String) (es : List WalEntry) → last_for c j (values (dedup [] es)) ≡ last_for c j es
unfolding D.get
last_for-dedup c j es =
    last_for-values c j (dedup [] es) (IsKeyed-dedup [] es tt) ∙ get-dedup c j [] es ∙ ground arith

-- What holds of all entries holds of those that are kept.
All-set :
    (P : WalEntry → Type 0) (e : WalEntry) (m : EntryMap)
    → P e
    → All P (values m)
    → All P (values (D.set (entry_key e) e m))
unfolding D.set
All-set P e [] h hs = (h, tt)
All-set P e ((k, x) ∷ m) h hs = elim (Bool-cases (pair_eq k (entry_key e))) [
  | inl q ↦ rw q (h, hs.1)
  | inr q ↦ rw q (hs.0, All-set P e m h hs.1)
]

pub All-dedup :
    (P : WalEntry → Type 0) (m : EntryMap) (es : List WalEntry)
    → All P es
    → All P (values m)
    → All P (values (dedup m es))
All-dedup P m [] h hs = hs
All-dedup P m (e ∷ es) h hs = All-dedup P (D.set (entry_key e) e m) es h.1 (All-set P e m h.0 hs)

-- The entries of a log that may not be there yet.
abbrev pub so_far : WalFile → Result (List WalEntry)
so_far none = ok []
so_far (some ls) = iter_raw (some ls)

parse_line-to_dict : (e : WalEntry) → parse_line (json (to_dict e)) ≡ ok e
unfolding parse_line
parse_line-to_dict e = rw (from_dict-to_dict e, parse_line)

non_empty-append :
    (ls : List WalLine) (r : RawEntry) → non_empty (ls ++ json r ∷ []) ≡ non_empty ls ++ json r ∷ []
non_empty-append [] r = refl
non_empty-append (blank ∷ ls) r = non_empty-append ls r
non_empty-append (corrupt ∷ ls) r = ap (λ l. corrupt ∷ l) (non_empty-append ls r)
non_empty-append (json x ∷ ls) r = ap (λ l. json x ∷ l) (non_empty-append ls r)

iter_raw_lines-append :
    (ls : List WalLine) (e : WalEntry)
    → iter_raw_lines (ls ++ json (to_dict e) ∷ []) ≡ (iter_raw_lines ls >>= λ es. ok (es ++ e ∷ []))
unfolding iter_raw_lines
iter_raw_lines-append [] e = rw (parse_line-to_dict e)
iter_raw_lines-append (line ∷ ls) e =
    rw (iter_raw_lines-append ls e) (go (parse_line line) (iter_raw_lines ls))
  where
    go :
        (x : Result WalEntry) (r : Result (List WalEntry))
        → (x >>= λ a. (r >>= λ es. ok (es ++ e ∷ [])) >>= λ es. ok (a ∷ es))
          ≡ ((x >>= λ a. r >>= λ es. ok (a ∷ es)) >>= λ es. ok (es ++ e ∷ []))
    go (ok a) (ok es) = refl
    go (ok a) (err y) = refl
    go (err y) r = refl

-- An appended entry reads back behind those that were there.
pub iter_raw-append :
    (e : WalEntry) (f : WalFile) → iter_raw (append e f) ≡ (so_far f >>= λ es. ok (es ++ e ∷ []))
unfolding iter_raw append iter_raw_lines
iter_raw-append e none = rw (parse_line-to_dict e)
iter_raw-append e (some ls) =
    rw (non_empty-append ls (to_dict e)) (iter_raw_lines-append (non_empty ls) e)
