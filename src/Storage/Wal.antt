-- ===== src/Storage/Wal.antt =====
-- storage/wal.py: the entries of the write-ahead log and the log file of one transaction.
pub mod Dedup
pub mod Apart
use jsonpy_sql.Prelude.{
  String, Bool, true, false, Option, none, some, List, [], ◌∷◌, ◌++◌, if◌then◌else◌, ◌≡◌, refl, map,
}
use text.Mathlib.Text.{◌==◌ as str_eq}
use jsonpy_sql.Python.Dict as D
use jsonpy_sql.Python.Dict.{Dict, pair_key}
use jsonpy_sql.Python.Value.{Document}
use jsonpy_sql.Python.Result.{Error, Result, ok, err, storage_error, wal_replay_error, ◌>>=◌}

pub data Op : Type 0 where
  insert update delete : Op

pub record WalEntry : Type 0 where
  pub op : Op
  pub collection : String
  pub doc_id : String
  pub document : Option Document

-- The dict of an entry: `none` is a missing key. A missing document and a null one read alike.
pub record RawEntry : Type 0 where
  pub op : Option String
  pub collection : Option String
  pub doc_id : Option String
  pub document : Option Document

abbrev op_text : Op → String
op_text insert = "insert"
op_text update = "update"
op_text delete = "delete"

-- `to_dict`
unfoldable pub to_dict : WalEntry → RawEntry
to_dict e = record {
  op = some (op_text e.op);
  collection = some e.collection;
  doc_id = some e.doc_id;
  document = e.document;
}

-- `data[key]`, whose `KeyError` becomes a `StorageError`
abbrev required : Option String → Result String
required none = err storage_error
required (some s) = ok s

abbrev op_of : String → Result Op
op_of s =
    if str_eq s "insert"
    then ok insert
    else if str_eq s "update"
    then ok update
    else if str_eq s "delete"
    then ok delete
    else err storage_error

-- `from_dict`
unfoldable pub from_dict : RawEntry → Result WalEntry
from_dict raw = do
  op_name ← required raw.op
  collection ← required raw.collection
  doc_id ← required raw.doc_id
  op ← op_of op_name
  ok (record { op = op; collection = collection; doc_id = doc_id; document = raw.document })

pub data WalLine : Type 0 where
  blank corrupt : WalLine
  json : RawEntry → WalLine

-- A log file; `none` is an absent one.
abbrev pub WalFile : Type 0
WalFile = Option (List WalLine)

-- `append`: mode "a" makes the file.
unfoldable pub append : WalEntry → WalFile → WalFile
append e none = some (json (to_dict e) ∷ [])
append e (some ls) = some (ls ++ json (to_dict e) ∷ [])

-- `json.loads` and `from_dict` on one line, where every failure is a `WALReplayError`
unfoldable pub parse_line : WalLine → Result WalEntry
parse_line blank = err wal_replay_error
parse_line corrupt = err wal_replay_error
parse_line (json raw) = elim (from_dict raw) [ ok e ↦ ok e | err _ ↦ err wal_replay_error ]

-- `line.rstrip("\n")` and `if not line: continue`
abbrev pub non_empty : List WalLine → List WalLine
non_empty [] = []
non_empty (blank ∷ ls) = non_empty ls
non_empty (corrupt ∷ ls) = corrupt ∷ non_empty ls
non_empty (json raw ∷ ls) = json raw ∷ non_empty ls

-- `iter_raw`: every entry, in file order.
unfoldable pub iter_raw_lines : List WalLine → Result (List WalEntry)
iter_raw_lines [] = ok []
iter_raw_lines (line ∷ ls) = do e ← parse_line line; es ← iter_raw_lines ls; ok (e ∷ es)

unfoldable pub iter_raw : WalFile → Result (List WalEntry)
iter_raw none = err wal_replay_error
iter_raw (some ls) = iter_raw_lines (non_empty ls)

abbrev pub EntryMap : Type 0
EntryMap = Dict (String × String) WalEntry

abbrev pub entry_key : WalEntry → String × String
entry_key e = (e.collection, e.doc_id)

-- The loop of `read_entries`.
unfoldable pub read_loop : EntryMap → List WalLine → Result EntryMap
read_loop m [] = ok m
read_loop m (line ∷ ls) = do e ← parse_line line; read_loop (D.set (entry_key e) e m) ls

abbrev pub values : EntryMap → List WalEntry
values m = map (λ x. x.1) m

-- `read_entries`: of the entries with one collection and id, the last, in the place of the first.
unfoldable pub read_entries : WalFile → Result (List WalEntry)
read_entries none = err wal_replay_error
read_entries (some ls) = do m ← read_loop [] (non_empty ls); ok (values m)

op_of-op_text : (o : Op) → op_of (op_text o) ≡ ok o
op_of-op_text insert = refl
op_of-op_text update = refl
op_of-op_text delete = refl

-- What `to_dict` writes, `from_dict` reads back.
pub from_dict-to_dict : (e : WalEntry) → from_dict (to_dict e) ≡ ok e
unfolding from_dict to_dict
from_dict-to_dict e = rw (op_of-op_text e.op)
