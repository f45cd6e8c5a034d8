-- ===== src/Tests/AtomicWrites.antt =====
-- Writes of files on a disk that is full after the first piece.
use jsonpy_sql.Prelude.{◌≡◌, refl, String, true, false, Option, none, some, List, [], ◌∷◌, All, ltb}
use jsonpy_sql.Python.Dict as D
use jsonpy_sql.Python.Dict.{Dict, string_key}
use jsonpy_sql.Python.Value.{truthy}
use jsonpy_sql.Storage.DocumentStore as Store
use jsonpy_sql.Storage.DocumentStore.{Line, json}
use jsonpy_sql.Storage.AtomicWrite.{Os, Files, write_json, compact_file}
use jsonpy_sql.Storage.AtomicWrite.Json.{
  IsOutcome, ReadsWhole, read_json-write_json, write_json_stops,
}
use jsonpy_sql.Storage.AtomicWrite.Compaction.{
  IsCompaction, Yields, compact_file-IsCompaction, compact_file_stops,
}
use jsonpy_sql.Tests.Collections.{ann_stored, bob}

abbrev full : Os
full = record { opens = true; writes = λ i. ltb i 1; closes = true; moves = true; unlinks = false }

abbrev dump : String → List String
dump v = "[" ∷ v ∷ "]" ∷ []

abbrev parse : List String → Option String
parse (a ∷ v ∷ b ∷ []) = some v
parse _ = none

abbrev inverse : (v : String) → parse (dump v) ≡ some v
inverse v = refl

abbrev index_files : Files String
index_files = ("users.name.idx", dump "Ann") ∷ []

read_json-write_json_example :
    IsOutcome dump parse "users.name.idx" "Bob" index_files
      (write_json dump full "users.name.idx" "Bob" index_files).result
      (write_json dump full "users.name.idx" "Bob" index_files).files
read_json-write_json_example =
    read_json-write_json dump parse inverse full "users.name.idx" "Bob" index_files

write_json_stops_example :
    All
      (ReadsWhole dump parse "users.name.idx" "Bob" index_files)
      (write_json dump full "users.name.idx" "Bob" index_files).seen
write_json_stops_example =
    write_json_stops dump parse inverse full "users.name.idx" "Bob" index_files

abbrev documents : Files Line
documents = ("users.jsonl", json bob ∷ json ann_stored ∷ []) ∷ []

compact_file-IsCompaction_example :
    IsCompaction "users.jsonl"
      (ann_stored ∷ [])
      documents
      (compact_file full "users.jsonl" (ann_stored ∷ []) documents).result
      (compact_file full "users.jsonl" (ann_stored ∷ []) documents).files
compact_file-IsCompaction_example =
    compact_file-IsCompaction full "users.jsonl" (ann_stored ∷ []) documents

only_ann : Yields "users.jsonl" (ann_stored ∷ []) documents
unfolding Store.scan Store.iter_lines Store.scan_loop Store.scan_step Store.live_docs Store.parse
    D.get D.set truthy
only_ann = refl

compact_file_stops_example :
    All
      (Yields "users.jsonl" (ann_stored ∷ []))
      (compact_file full "users.jsonl" (ann_stored ∷ []) documents).seen
compact_file_stops_example =
    compact_file_stops full "users.jsonl" (ann_stored ∷ []) documents only_ann
