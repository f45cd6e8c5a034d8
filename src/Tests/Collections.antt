-- ===== src/Tests/Collections.antt =====
-- An engine with a collection `users`, indexed by `name`, that holds Ann, and another without
-- documents.
use jsonpy_sql.Prelude.{false, none, some, [], ◌∷◌}
use jsonpy_sql.Python.Int.{pos}
use jsonpy_sql.Python.Value.{str, int, Document}
use jsonpy_sql.Storage.SortedDict.{Postings}
use jsonpy_sql.Storage.DocumentStore.{json}
use jsonpy_sql.Storage.IndexManager.{IndexManager, IndexSpec}
use jsonpy_sql.Storage.Wal.{Op, WalEntry}
use jsonpy_sql.Storage.Engine.{Engine, registry}

abbrev pub by_name : IndexSpec
by_name = record { fields = "name" ∷ []; unique = false }

abbrev pub ann : Document
ann = ("name", str "Ann") ∷ ("age", int (pos 41)) ∷ []

abbrev pub bob : Document
bob = ("name", str "Bob") ∷ ("age", int (pos 9)) ∷ []

abbrev pub ann_stored : Document
ann_stored = ("name", str "Ann") ∷ ("age", int (pos 41)) ∷ ("_id", str "1") ∷ []

abbrev pub names : IndexManager Postings
names = record {
  indexes = (by_name, ("Ann", "1" ∷ []) ∷ []) ∷ [];
  reverse = [];
  files = record { idx = []; ridx = none };
}

abbrev pub users : Engine Postings
users = record {
  managers = ("users", names) ∷ [];
  specs = ("users", by_name ∷ []) ∷ [];
  jsonl = ("users", json ann_stored ∷ []) ∷ [];
  wals = [];
  manifest = registry (("users", by_name ∷ []) ∷ []);
}

abbrev pub add_bob : WalEntry
add_bob = record { op = Op.insert; collection = "users"; doc_id = "2"; document = some bob }

abbrev pub rename_ann : WalEntry
rename_ann = record { op = Op.update; collection = "users"; doc_id = "1"; document = some bob }

abbrev pub remove_bob : WalEntry
remove_bob = record { op = Op.delete; collection = "users"; doc_id = "2"; document = none }
