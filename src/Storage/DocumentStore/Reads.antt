-- ===== src/Storage/DocumentStore/Reads.antt =====
-- What `get` returns after each write, and that it agrees with `scan`.
use text.Mathlib.Text.{◌==◌ as str_eq}
use jsonpy_sql.Prelude.{
  ◌≡◌, refl, ap, String, true, Option, none, some, List, [], ◌∷◌, ◌++◌, if◌then◌else◌,
}
use jsonpy_sql.Python.Dict as D
use jsonpy_sql.Python.Dict.{Dict, string_key, get-set, dict_laws}
use jsonpy_sql.Python.Value.{bool, str, value_key, truthy, Document, field}
use jsonpy_sql.Python.Result.{ok, ◌>>=◌}
use jsonpy_sql.Storage.DocumentStore.{
  deleted_key, id_key, Line, json, blank, corrupt, write_line, append, tombstone, iter_lines, parse,
  strip_id, get_step, get_loop, get, non_empty,
}

pub non_empty-append : (ls ms : List Line) → non_empty (ls ++ ms) ≡ non_empty ls ++ non_empty ms
non_empty-append [] ms = refl
non_empty-append (blank ∷ ls) ms = non_empty-append ls ms
non_empty-append (corrupt ∷ ls) ms = ap (λ l. corrupt ∷ l) (non_empty-append ls ms)
non_empty-append (json r ∷ ls) ms = ap (λ l. json r ∷ l) (non_empty-append ls ms)

-- One more record at the end is one more round of the loop.
get_loop-append :
    (j : String) (r : Option Document) (ls : List Line) (rec : Document)
    → get_loop j r (ls ++ json rec ∷ []) ≡ (get_loop j r ls >>= λ r'. ok (get_step j r' rec))
unfolding get_loop parse
get_loop-append j r [] rec = refl
get_loop-append j r (blank ∷ ls) rec = refl
get_loop-append j r (corrupt ∷ ls) rec = refl
get_loop-append j r (json d ∷ ls) rec = get_loop-append j (get_step j r d) ls rec

pub get-write_line :
    (j : String) (rec : Document) (ls : List Line)
    → get j (write_line rec (some ls)) ≡ (get j (some ls) >>= λ r. ok (get_step j r rec))
unfolding get write_line iter_lines
get-write_line j rec ls =
    rw (non_empty-append ls (json rec ∷ [])) (get_loop-append j none (non_empty ls) rec)

-- What a reader sees of a record of its document.
unfoldable pub visible : Document → Option Document
visible d = if truthy (field deleted_key d) then none else some (strip_id d)

get_step-append :
    (id j : String) (r : Option Document) (d : Document)
    → get_step j r (D.set id_key (str id) d) ≡ (if str_eq id j then visible d else r)
unfolding get_step visible strip_id
get_step-append id j r d = simp (get-set, D.del-set)

-- After `append(id, d)` a read of `id` gives `d` without its `_id`, or nothing if `d` has a true
-- `_deleted` field; a read of any other id gives, or raises, what it did before.
pub get-append :
    (id j : String) (d : Document) (ls : List Line)
    → get j (append id d (some ls))
      ≡ (get j (some ls) >>= λ old. ok (if str_eq id j then visible d else old))
unfolding append
get-append id j d ls = simp (get-write_line, get_step-append)

get_step-tombstone :
    (id j : String) (r : Option Document)
    → get_step j r ((deleted_key, bool true) ∷ (id_key, str id) ∷ [])
      ≡ (if str_eq id j then none else r)
unfolding get_step visible strip_id D.get truthy
get_step-tombstone id j r = refl

-- After `tombstone(id)` a read of `id` gives nothing; other reads are as before.
pub get-tombstone :
    (id j : String) (ls : List Line)
    → get j (tombstone id (some ls))
      ≡ (get j (some ls) >>= λ old. ok (if str_eq id j then none else old))
unfolding tombstone
get-tombstone id j ls = simp (get-write_line, get_step-tombstone)
