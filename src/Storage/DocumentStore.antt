-- ===== src/Storage/DocumentStore.antt =====
-- storage/document_store.py: `DocumentStore` over one `.jsonl` file. A file that is absent is
-- `none`. A line is empty, not JSON, or the JSON text of a document; encoding and decoding of
-- documents by `json` is taken to be exact. I/O errors other than an absent file are not modelled.
pub mod Reads
pub mod Scan
pub mod Compaction
pub mod Counts
use text.Mathlib.Text.{◌==◌ as str_eq}
use jsonpy_sql.Prelude.{
  ℕ, ◌+◌, String, Bool, true, false, Option, none, some, List, [], ◌∷◌, ◌++◌, map, if◌then◌else◌,
}
use jsonpy_sql.Python.Dict.{Dict, set, del, string_key}
use jsonpy_sql.Python.Value.{
  Value, bool, str, value_eq, value_key, is_none, truthy, Document, field,
}
use jsonpy_sql.Python.Result.{Result, ok, err, storage_error, ◌>>=◌}

abbrev pub deleted_key : String
deleted_key = "_deleted"

abbrev pub id_key : String
id_key = "_id"

pub data Line : Type 0 where
  blank corrupt : Line
  json : Document → Line

abbrev pub File : Type 0
File = Option (List Line)

-- `create`: `touch(exist_ok=False)`
unfoldable pub create : File → Result File
create none = ok (some [])
create (some ls) = err storage_error

-- `destroy`: `unlink(missing_ok=True)`
unfoldable pub destroy : File → File
destroy f = none

-- `_write_line`: mode "a" makes the file if it is absent.
unfoldable pub write_line : Document → File → File
write_line rec none = some (json rec ∷ [])
write_line rec (some ls) = some (ls ++ json rec ∷ [])

unfoldable pub append : String → Document → File → File
append doc_id document f = write_line (set id_key (str doc_id) document) f

unfoldable pub tombstone : String → File → File
tombstone doc_id f = write_line ((deleted_key, bool true) ∷ (id_key, str doc_id) ∷ []) f

abbrev pub non_empty : List Line → List Line
non_empty [] = []
non_empty (blank ∷ ls) = non_empty ls
non_empty (corrupt ∷ ls) = corrupt ∷ non_empty ls
non_empty (json rec ∷ ls) = json rec ∷ non_empty ls

-- `_iter_lines`
unfoldable pub iter_lines : File → Result (List Line)
iter_lines none = err storage_error
iter_lines (some ls) = ok (non_empty ls)

-- `_parse`; the empty text is no JSON either.
unfoldable pub parse : Line → Result Document
parse blank = err storage_error
parse corrupt = err storage_error
parse (json rec) = ok rec

-- `_strip_id`
unfoldable pub strip_id : Document → Document
strip_id rec = del id_key rec

-- One round of the loop in `get`.
unfoldable pub get_step : String → Option Document → Document → Option Document
get_step doc_id result rec =
    if value_eq (field id_key rec) (str doc_id)
    then (if truthy (field deleted_key rec) then none else some (strip_id rec))
    else result

unfoldable pub get_loop : String → Option Document → List Line → Result (Option Document)
get_loop doc_id result [] = ok result
get_loop doc_id result (line ∷ ls) = do
  rec ← parse line
  get_loop doc_id (get_step doc_id result rec) ls

unfoldable pub get : String → File → Result (Option Document)
get doc_id f = do ls ← iter_lines f; get_loop doc_id none ls

-- One round of the first loop in `scan`.
unfoldable pub scan_step : Dict Value (Option Document) → Document → Dict Value (Option Document)
scan_step seen rec =
    if is_none (field id_key rec)
    then seen
    else set (field id_key rec) (if truthy (field deleted_key rec) then none else some rec) seen

unfoldable pub scan_loop :
    Dict Value (Option Document) → List Line → Result (Dict Value (Option Document))
scan_loop seen [] = ok seen
scan_loop seen (line ∷ ls) = do rec ← parse line; scan_loop (scan_step seen rec) ls

-- The second loop in `scan`.
unfoldable pub live_docs : Dict Value (Option Document) → List Document
live_docs [] = []
live_docs ((k, none) ∷ seen) = live_docs seen
live_docs ((k, some doc) ∷ seen) = doc ∷ live_docs seen

unfoldable pub scan : File → Result (List Document)
scan f = do ls ← iter_lines f; seen ← scan_loop [] ls; ok (live_docs seen)

-- `compact`: the file is replaced whole.
unfoldable pub compact : List Document → File → File
compact docs f = some (map json docs)

unfoldable pub count_loop : ℕ → ℕ → List Line → Result (ℕ × ℕ)
count_loop total tombstones [] = ok (total, tombstones)
count_loop total tombstones (line ∷ ls) = do
  rec ← parse line
  count_loop (total + 1) (if truthy (field deleted_key rec) then tombstones + 1 else tombstones) ls

-- `count_lines`: all lines, and those that are tombstones.
unfoldable pub count_lines : File → Result (ℕ × ℕ)
count_lines f = do ls ← iter_lines f; count_loop 0 0 ls
