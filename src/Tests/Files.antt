-- ===== src/Tests/Files.antt =====
-- The theorems on document files applied to a file with a superseded line, a tombstone and an empty
-- line.
use jsonpy_sql.Prelude.{◌≡◌, refl, true, some, List, [], ◌∷◌}
use jsonpy_sql.Python.Dict as D
use jsonpy_sql.Python.Value.{str, bool, truthy, Document}
use jsonpy_sql.Python.Result.{ok, ◌>>=◌}
use jsonpy_sql.Storage.DocumentStore.{
  Line, json, blank, get, scan, scan_loop, scan_step, live_docs, iter_lines, parse,
}
use jsonpy_sql.Storage.DocumentStore.Scan.{find_doc, get-scan}
use jsonpy_sql.Tests.Collections.{ann_stored}

abbrev bob_stored : Document
bob_stored = ("name", str "Bob") ∷ ("_id", str "1") ∷ []

abbrev gone : Document
gone = ("_deleted", bool true) ∷ ("_id", str "2") ∷ []

abbrev lines : List Line
lines = json ann_stored ∷ blank ∷ json gone ∷ json bob_stored ∷ []

scanned : scan (some lines) ≡ ok (bob_stored ∷ [])
unfolding scan iter_lines scan_loop scan_step live_docs parse D.get D.set truthy
scanned = refl

get-scan_example : get "1" (some lines) ≡ (scan (some lines) >>= λ docs. ok (find_doc "1" docs))
get-scan_example = get-scan "1" (some lines)
