-- ===== src/Tests/Logs.antt =====
-- The theorems on logs and recovery applied to logs for the collection `users`.
use jsonpy_sql.Prelude.{◌≡◌, refl, true, none, some, List, [], ◌∷◌}
use jsonpy_sql.Python.Dict as D
use jsonpy_sql.Python.Dict.{string_key}
use jsonpy_sql.Python.Result.{ok, err, storage_error}
use jsonpy_sql.Storage.SortedDict.{Postings}
use jsonpy_sql.Storage.Wal as Wal
use jsonpy_sql.Storage.Wal.{
  Op, WalEntry, WalLine, from_dict, to_dict, iter_raw, values, from_dict-to_dict,
}
use jsonpy_sql.Storage.Engine.{Engine, get, require, lock, commit, wal_of}
use jsonpy_sql.Storage.Engine.Documents.{IsReady}
use jsonpy_sql.Storage.Engine.Entries.{effect, IsOverwrite}
use jsonpy_sql.Storage.Engine.Failures.{commit_stops}
use jsonpy_sql.Storage.Engine.Indexed.{IsIndexed}
use jsonpy_sql.Storage.Engine.CommitIndexed.{commit-IsIndexed}
use jsonpy_sql.Storage.Engine.EntryWrites.{fits}
use jsonpy_sql.Storage.DocumentStore as Store
use jsonpy_sql.Python.Value.{truthy}
use jsonpy_sql.Tests.Indexes.{users-IsIndexed}
use jsonpy_sql.Tests.Instances.{entry_list}
use jsonpy_sql.Tests.Collections.{ann, users, add_bob, rename_ann}
use jsonpy_sql.Tests.Engines.{users-IsReady}

abbrev pub with_log : List WalLine → Engine Postings
with_log ls = record users { wals = ("t1.wal", ls) ∷ [] }

with_log-IsReady : (ls : List WalLine) → IsReady "users" (with_log ls)
unfolding get require lock
with_log-IsReady ls = users-IsReady

abbrev pub two_entries : List WalLine
two_entries = Wal.json (to_dict add_bob) ∷ Wal.json (to_dict rename_ann) ∷ []

pub two_read : iter_raw (wal_of "t1.wal" (with_log two_entries)) ≡ ok (add_bob ∷ rename_ann ∷ [])
unfolding iter_raw Wal.iter_raw_lines Wal.parse_line from_dict to_dict D.get
two_read = refl

abbrev add_order : WalEntry
add_order = record { op = Op.insert; collection = "orders"; doc_id = "1"; document = some ann }

abbrev half : List WalLine
half = Wal.json (to_dict add_bob) ∷ Wal.json (to_dict add_order) ∷ []

half_read : Wal.read_entries (wal_of "t1.wal" (with_log half)) ≡ ok (add_bob ∷ add_order ∷ [])
unfolding Wal.read_entries Wal.read_loop Wal.parse_line from_dict to_dict D.get D.set
half_read = refl

no_orders : D.get "orders" (with_log half).managers ≡ none
unfolding D.get
no_orders = refl

commit_stops_example :
    (e' : Engine Postings) × (commit "t1.wal" (with_log half) ≡ (err storage_error, e'))
    × IsOverwrite "users" "2" (effect add_bob) (with_log half) e'
    × (wal_of "t1.wal" e' ≡ wal_of "t1.wal" (with_log half))
commit_stops_example =
    commit_stops "t1.wal" add_bob add_order [] (with_log half) half_read (with_log-IsReady half)
      no_orders

with_log-IsIndexed : (ls : List WalLine) → IsIndexed "users" (with_log ls)
unfolding get require lock
with_log-IsIndexed ls = users-IsIndexed

add_bob-fits : fits add_bob.op add_bob (with_log two_entries) ≡ true
unfolding get require lock Store.get Store.iter_lines Store.get_loop Store.get_step Store.parse
    D.get truthy
add_bob-fits = refl

rename_ann-fits : fits rename_ann.op rename_ann (with_log two_entries) ≡ true
unfolding get require lock Store.get Store.iter_lines Store.get_loop Store.get_step Store.parse
    Store.strip_id D.get D.del truthy
rename_ann-fits = refl

commit-IsIndexed_example :
    (e' : Engine Postings) × (commit "t1.wal" (with_log two_entries) ≡ (ok tt, e'))
    × IsIndexed "users" e'
commit-IsIndexed_example =
    commit-IsIndexed "t1.wal" "users" (add_bob ∷ rename_ann ∷ []) (with_log two_entries) two_read
      (with_log-IsReady two_entries, (with_log-IsReady two_entries, tt))
      (add_bob-fits, (rename_ann-fits, tt)) (with_log-IsIndexed two_entries)
