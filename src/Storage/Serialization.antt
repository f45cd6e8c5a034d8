-- ===== src/Storage/Serialization.antt =====
-- utils/serialization.py: `json_default`, and the writes of documents whose values it encodes.
pub mod Writes
use jsonpy_sql.Prelude.{
  ◌≡◌, refl, ◌∙◌, ap, String, Bool, true, false, Option, none, some, List, [], ◌∷◌, ◌++◌,
}
use jsonpy_sql.Python.Dict.{Dict}
use jsonpy_sql.Python.Value.{Value, str, to_str, Document}
use jsonpy_sql.Python.Result.{Result, ok, err, type_error, ◌>>=◌}
use jsonpy_sql.Storage.DocumentStore as Store
use jsonpy_sql.Storage.DocumentStore.{File, json, write_line, scan}
use jsonpy_sql.Storage.DocumentStore.Reads.{non_empty-append}

-- A value of a type from `datetime`: the texts of its `isoformat()` and of its `str()`, which differ
-- for a `datetime`.
pub record Moment : Type 0 where
  pub isoformat : String
  pub text : String

-- The values that a caller may hand over: those that JSON has, those of the types that
-- `json_default` knows, where a `Decimal` and a `UUID` have no `isoformat` but the text of their
-- `str()`, and those of another type.
pub data RawValue : Type 0 where
  native : Value → RawValue
  datetime date time : Moment → RawValue
  decimal uuid : String → RawValue
  other : RawValue

abbrev pub RawDocument : Type 0
RawDocument = Dict String RawValue

unfoldable pub json_default : RawValue → Result Value
json_default (datetime m) = ok (str m.isoformat)
json_default (date m) = ok (str m.isoformat)
json_default (time m) = ok (str m.isoformat)
json_default (decimal s) = ok (str s)
json_default (uuid s) = ok (str s)
json_default v = err type_error

-- `json.dumps` asks `json_default` for what it cannot encode itself.
abbrev pub dump_value : RawValue → Result Value
dump_value (native v) = ok v
dump_value v = json_default v

-- `json.dumps(record, default=json_default)`
unfoldable pub dumps : RawDocument → Result Document
dumps [] = ok []
dumps ((f, v) ∷ rest) = do w ← dump_value v; d ← dumps rest; ok ((f, w) ∷ d)

-- `open("a")` makes an absent file.
abbrev pub touched : File → File
touched none = some []
touched (some ls) = some ls

-- `_write_line`: the file is opened before the record is encoded, and a TypeError passes through.
unfoldable pub write_raw_line : RawDocument → File → Result (Unit {0}) × File
write_raw_line rec f = elim (dumps rec) [
  | ok d ↦ (ok tt, write_line d (touched f))
  | err x ↦ (err x, touched f)
]

-- Whether each value is one that can be encoded
abbrev pub is_encodable : RawValue → Bool
is_encodable other = false
is_encodable v = true
