-- ===== src/Storage/DocumentStore/Scan.antt =====
-- `get` and `scan` show the same documents.
use jsonpy_sql.Prelude.{
  ◌≡◌, refl, ◌∙◌, String, true, false, Option, none, some, List, [], ◌∷◌, arith, if◌then◌else◌,
  Bool-cases, inl, inr, subst,
}
use jsonpy_sql.Python.Dict as D
use jsonpy_sql.Python.Dict.{Dict, get-set, get-cong, beq_symm}
use jsonpy_sql.Python.Value.{
  Value, null, str, value_eq, value_eq_cong, value_eq_refl, value_key, is_none, truthy, Document,
  field,
}
use jsonpy_sql.Python.Result.{Result, ok, err, ◌>>=◌, ok-injective}
use jsonpy_sql.Storage.DocumentStore.{
  deleted_key, id_key, Line, json, blank, corrupt, File, iter_lines, parse, strip_id, get_step,
  get_loop, get, scan_step, scan_loop, live_docs, scan, non_empty,
}

abbrev pub Seen : Type 0
Seen = Dict Value (Option Document)

abbrev pub shown : Option (Option Document) → Option Document
shown none = none
shown (some none) = none
shown (some (some d)) = some (strip_id d)

-- What the dict of a scan says of one id.
abbrev pub view : String → Seen → Option Document
view j seen = shown (D.get (str j) seen)

abbrev kept : Document → Option Document
kept rec = if truthy (field deleted_key rec) then none else some rec

view_step :
    (j : String) (k : Value) (rec : Document) (seen : Seen)
    → view j (if is_none k then seen else D.set k (kept rec) seen) ≡ (
        if value_eq k (str j)
        then (if truthy (field deleted_key rec) then none else some (strip_id rec))
        else view j seen)
view_step j k rec seen = ground (arith, get-set k (str j) (kept rec) seen)

view-scan_step :
    (j : String) (seen : Seen) (rec : Document)
    → view j (scan_step seen rec) ≡ get_step j (view j seen) rec
unfolding scan_step get_step
view-scan_step j seen rec = view_step j (field id_key rec) rec seen

get_loop-scan_loop :
    (j : String) (seen : Seen) (ls : List Line)
    → get_loop j (view j seen) ls ≡ (scan_loop seen ls >>= λ s. ok (view j s))
unfolding get_loop scan_loop parse
get_loop-scan_loop j seen [] = refl
get_loop-scan_loop j seen (blank ∷ ls) = refl
get_loop-scan_loop j seen (corrupt ∷ ls) = refl
get_loop-scan_loop j seen (json rec ∷ ls) =
    rw (← view-scan_step j seen rec) (get_loop-scan_loop j (scan_step seen rec) ls)

-- A document in the dict stands under its own id and is not marked deleted.
abbrev pub IsEntry : Value → Option Document → Type 0
IsEntry k none = Unit
IsEntry k (some d) =
    (value_eq (field id_key d) k ≡ true)
    × (is_none (field id_key d) ≡ false)
    × (truthy (field deleted_key d) ≡ false)

-- ... and no id stands twice.
abbrev pub IsSeen : Seen → Type 0
IsSeen [] = Unit
IsSeen ((k, v) ∷ s) = (D.get k s ≡ none) × IsEntry k v × IsSeen s

IsSeen-set :
    (k : Value) (v : Option Document) (s : Seen)
    → IsEntry k v
    → ((i : Value) → value_eq i k ≡ true → IsEntry i v)
    → IsSeen s
    → IsSeen (D.set k v s)
unfolding D.set D.get
IsSeen-set k v [] h g hs = (refl, h, tt)
IsSeen-set k v ((i, w) ∷ s) h g hs =
    ground (arith, g i, IsSeen-set k v s h g hs.2, get-set k i v s, beq_symm k i)

IsEntry-kept :
    (k i : Value) (rec : Document)
    → value_eq (field id_key rec) k ≡ true
    → is_none (field id_key rec) ≡ false
    → IsEntry k (kept rec)
IsEntry-kept k i rec e n = ground arith

IsSeen-scan_step : (seen : Seen) (rec : Document) → IsSeen seen → IsSeen (scan_step seen rec)
unfolding scan_step
IsSeen-scan_step seen rec h = elim (Bool-cases (is_none (field id_key rec))) [
  | inl e ↦ rw e h
  | inr e ↦ rw e (
      IsSeen-set (field id_key rec) (kept rec) seen
        (IsEntry-kept _ null rec (value_eq_refl (field id_key rec)) e)
        (λ i q. IsEntry-kept i null rec (beq_symm i (field id_key rec) q) e) h)
]

pub IsSeen-scan_loop :
    (seen : Seen) (ls : List Line) {seen' : Seen}
    → IsSeen seen
    → scan_loop seen ls ≡ ok seen'
    → IsSeen seen'
unfolding scan_loop parse
IsSeen-scan_loop seen [] h e = subst IsSeen (ok-injective e) h
IsSeen-scan_loop seen (blank ∷ ls) h e = absurd (cc)
IsSeen-scan_loop seen (corrupt ∷ ls) h e = absurd (cc)
IsSeen-scan_loop seen (json rec ∷ ls) h e =
    IsSeen-scan_loop (scan_step seen rec) ls (IsSeen-scan_step seen rec h) e

-- The first document of a list with an id, as `get` would return it.
unfoldable pub find_doc : String → List Document → Option Document
find_doc j [] = none
find_doc j (d ∷ ds) = if value_eq (field id_key d) (str j) then some (strip_id d) else find_doc j ds

pub find_doc-live_docs :
    (j : String) (seen : Seen) → IsSeen seen → find_doc j (live_docs seen) ≡ view j seen
unfolding find_doc live_docs D.get
find_doc-live_docs j [] h = refl
find_doc-live_docs j ((k, none) ∷ seen) h =
    ground (arith, find_doc-live_docs j seen h.2, get-cong k (str j) seen)
find_doc-live_docs j ((k, some d) ∷ seen) h =
    ground (arith, find_doc-live_docs j seen h.2, value_eq_cong (field id_key d) k (str j))

found_after :
    (j : String) (r : Result Seen)
    → ((s : Seen) → r ≡ ok s → IsSeen s)
    → (r >>= λ s. ok (view j s)) ≡ (r >>= λ s. ok (find_doc j (live_docs s)))
found_after j (ok s) h = rw (find_doc-live_docs j s (h s refl))
found_after j (err x) h = refl

bind_live :
    (j : String) (r : Result Seen)
    → (r >>= λ s. ok (find_doc j (live_docs s)))
      ≡ ((r >>= λ s. ok (live_docs s)) >>= λ docs. ok (find_doc j docs))
bind_live j (ok s) = refl
bind_live j (err x) = refl

-- On every file, readable or not, `get(j)` gives the document that `scan` yields under the id `j`,
-- and raises where `scan` raises.
pub get-scan : (j : String) (f : File) → get j f ≡ (scan f >>= λ docs. ok (find_doc j docs))
unfolding get scan iter_lines D.get
get-scan j none = refl
get-scan j (some ls) =
    get_loop-scan_loop j [] (non_empty ls)
    ∙ found_after j (scan_loop [] (non_empty ls)) (λ s e. IsSeen-scan_loop [] (non_empty ls) tt e)
    ∙ bind_live j (scan_loop [] (non_empty ls))
