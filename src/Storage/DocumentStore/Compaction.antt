-- ===== src/Storage/DocumentStore/Compaction.antt =====
-- Compaction drops superseded lines and tombstones, and no reader can tell.
use mathlib.Core.List.{append_assoc, append-nil}
use jsonpy_sql.Prelude.{
  ◌≡◌, refl, sym, ◌∙◌, ap, subst, String, false, Option, none, some, List, [], ◌∷◌, ◌++◌, map,
  arith,
}
use jsonpy_sql.Python.Dict as D
use jsonpy_sql.Python.Dict.{Dict}
use jsonpy_sql.Python.Value.{
  Value, value_eq, value_eq_cong, value_eq_refl, value_key, Document, field,
}
use jsonpy_sql.Python.Result.{Result, ok, err, ◌>>=◌, ok-injective}
use jsonpy_sql.Storage.DocumentStore.{
  id_key, json, File, iter_lines, parse, get, scan_step, scan_loop, live_docs, scan, compact,
  non_empty,
}
use jsonpy_sql.Storage.DocumentStore.Scan.{Seen, IsEntry, IsSeen, IsSeen-scan_loop, get-scan}

-- The dict that a scan of these documents alone builds.
abbrev pub entries : List Document → Seen
entries [] = []
entries (d ∷ ds) = (field id_key d, some d) ∷ entries ds

get-entries-live_docs :
    (k : Value) (s : Seen) → IsSeen s → D.get k s ≡ none → D.get k (entries (live_docs s)) ≡ none
unfolding D.get live_docs
get-entries-live_docs k [] h e = refl
get-entries-live_docs k ((i, none) ∷ s) h e = ground (arith, get-entries-live_docs k s h.2)
get-entries-live_docs k ((i, some d) ∷ s) h e =
    ground (arith, get-entries-live_docs k s h.2, value_eq_cong (field id_key d) i k)

pub IsSeen-entries : (s : Seen) → IsSeen s → IsSeen (entries (live_docs s))
unfolding live_docs
IsSeen-entries [] h = tt
IsSeen-entries ((i, none) ∷ s) h = IsSeen-entries s h.2
IsSeen-entries ((i, some d) ∷ s) h = (
  get-entries-live_docs (field id_key d) s h.2 (D.get-cong (field id_key d) i s h.1.0 ∙ h.0),
  (value_eq_refl (field id_key d), h.1.1, h.1.2),
  IsSeen-entries s h.2,
)

set_fresh :
    (k : Value) (v : Option Document) (s : Seen) → D.get k s ≡ none → D.set k v s ≡ s ++ (k, v) ∷ []
unfolding D.get D.set
set_fresh k v [] h = refl
set_fresh k v ((i, w) ∷ s) h = ground (arith, set_fresh k v s)

ne_of_get :
    (i k : Value) (v : Option Document) (s t : Seen)
    → D.get i (s ++ (k, v) ∷ t) ≡ none
    → value_eq k i ≡ false
unfolding D.get
ne_of_get i k v [] t h = ground arith
ne_of_get i k v ((j, w) ∷ s) t h = ground (arith, ne_of_get i k v s t)

get_of_IsSeen :
    (k : Value) (v : Option Document) (s t : Seen) → IsSeen (s ++ (k, v) ∷ t) → D.get k s ≡ none
unfolding D.get
get_of_IsSeen k v [] t h = refl
get_of_IsSeen k v ((i, w) ∷ s) t h =
    ground (arith, ne_of_get i k v s t h.0, D.beq_symm i k, get_of_IsSeen k v s t h.2)

IsEntry-of_IsSeen :
    (k : Value) (v : Option Document) (s t : Seen) → IsSeen (s ++ (k, v) ∷ t) → IsEntry k v
IsEntry-of_IsSeen k v [] t h = h.1
IsEntry-of_IsSeen k v ((i, w) ∷ s) t h = IsEntry-of_IsSeen k v s t h.2

scan_step_fresh :
    (acc : Seen) (d : Document) (ds : List Document)
    → IsSeen (acc ++ entries (d ∷ ds))
    → scan_step acc d ≡ acc ++ (field id_key d, some d) ∷ []
unfolding scan_step
scan_step_fresh acc d ds h =
    let fresh =
      set_fresh (field id_key d) (some d) acc
        (get_of_IsSeen (field id_key d) (some d) acc (entries ds) h) in
    let e = IsEntry-of_IsSeen (field id_key d) (some d) acc (entries ds) h in rw (e.1, e.2) fresh

scan_loop-entries :
    (acc : Seen) (ds : List Document)
    → IsSeen (acc ++ entries ds)
    → scan_loop acc (map json ds) ≡ ok (acc ++ entries ds)
unfolding scan_loop parse
scan_loop-entries acc [] h = rw (append-nil acc)
scan_loop-entries acc (d ∷ ds) h =
    let more = append_assoc acc ((field id_key d, some d) ∷ []) (entries ds) in
    rw (scan_step_fresh acc d ds h) (
      scan_loop-entries (acc ++ (field id_key d, some d) ∷ []) ds (subst IsSeen (sym more) h)
      ∙ ap ok more)

pub live_docs-entries : (ds : List Document) → live_docs (entries ds) ≡ ds
unfolding live_docs
live_docs-entries [] = refl
live_docs-entries (d ∷ ds) = ap (λ l. d ∷ l) (live_docs-entries ds)

pub non_empty-map : (ds : List Document) → non_empty (map json ds) ≡ map json ds
non_empty-map [] = refl
non_empty-map (d ∷ ds) = ap (λ l. json d ∷ l) (non_empty-map ds)

scan_live :
    (s : Seen) → IsSeen s → scan_loop [] (map json (live_docs s)) ≡ ok (entries (live_docs s))
scan_live s h = scan_loop-entries [] (live_docs s) (IsSeen-entries s h)

-- A successful scan is the live part of a dict that satisfies its invariant.
pub scan-IsSeen :
    (f : File) (docs : List Document)
    → scan f ≡ ok docs
    → (s : Seen) × IsSeen s × (live_docs s ≡ docs)
unfolding scan iter_lines
scan-IsSeen none docs h = absurd (cc)
scan-IsSeen (some ls) docs h = go (scan_loop [] (non_empty ls)) refl h
  where
    go :
        (r : Result Seen)
        → scan_loop [] (non_empty ls) ≡ r
        → (r >>= λ s. ok (live_docs s)) ≡ ok docs
        → (s : Seen) × IsSeen s × (live_docs s ≡ docs)
    go (ok s) e q = (s, IsSeen-scan_loop [] (non_empty ls) tt e, ok-injective q)
    go (err x) e q = absurd (cc)

-- If a scan succeeds, then after compaction to what it yields, a scan yields the same documents in
-- the same order.
pub scan-compact :
    (f : File) (docs : List Document) → scan f ≡ ok docs → scan (compact docs f) ≡ ok docs
unfolding scan compact iter_lines
scan-compact f docs h =
    let (s, seen, live) = scan-IsSeen f docs h in
    rw (← live, non_empty-map (live_docs s), scan_live s seen, live_docs-entries (live_docs s))

-- If a scan succeeds, then after compaction to what it yields, a read of any id gives what it gave
-- before.
pub get-compact :
    (j : String) (f : File) (docs : List Document)
    → scan f ≡ ok docs
    → get j (compact docs f) ≡ get j f
get-compact j f docs h = get-scan j (compact docs f) ∙ rw (scan-compact f docs h, get-scan j f, h)
