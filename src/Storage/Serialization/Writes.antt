-- ===== src/Storage/Serialization/Writes.antt =====
-- What a write leaves in the file, by the values of its record.
use jsonpy_sql.Prelude.{
  ◌≡◌, refl, Bool, none, some, List, [], ◌∷◌, ◌++◌, map, if◌then◌else◌, all_of, Bool-cases, inl,
  inr,
}
use jsonpy_sql.Python.Value.{Value, null, str, Document}
use jsonpy_sql.Python.Result.{ok, err, type_error}
use jsonpy_sql.Storage.DocumentStore.{File, Line, json, write_line}
use jsonpy_sql.Storage.Serialization.{
  touched, RawValue, native, datetime, date, time, decimal, uuid, other, RawDocument, json_default,
  dump_value, dumps, write_raw_line, is_encodable,
}

-- The value that is read back for one that can be encoded
abbrev pub stored : RawValue → Value
stored (native v) = v
stored (datetime m) = str m.isoformat
stored (date m) = str m.isoformat
stored (time m) = str m.isoformat
stored (decimal s) = str s
stored (uuid s) = str s
stored other = null

abbrev pub all_encodable : RawDocument → Bool
all_encodable rec = all_of (λ x. is_encodable x.1) rec

abbrev pub stored_fields : RawDocument → Document
stored_fields rec = map (λ x. (x.0, stored x.1)) rec

dump_value-stored :
    (v : RawValue) → dump_value v ≡ (if is_encodable v then ok (stored v) else err type_error)
unfolding json_default
dump_value-stored (native v) = refl
dump_value-stored (datetime m) = refl
dump_value-stored (date m) = refl
dump_value-stored (time m) = refl
dump_value-stored (decimal s) = refl
dump_value-stored (uuid s) = refl
dump_value-stored other = refl

dumps-stored :
    (rec : RawDocument)
    → dumps rec ≡ (if all_encodable rec then ok (stored_fields rec) else err type_error)
unfolding dumps
dumps-stored [] = refl
dumps-stored ((f, v) ∷ rest) = elim (Bool-cases (is_encodable v)) [
  | inr q ↦ rw (dump_value-stored v, q) refl
  | inl q ↦ elim (Bool-cases (all_encodable rest)) [
    | inl r ↦ rw (dump_value-stored v, q, dumps-stored rest, r) refl
    | inr r ↦ rw (dump_value-stored v, q, dumps-stored rest, r) refl
  ]
]

-- The lines of a file once it was opened for appending: an absent file is there and empty.
abbrev pub lines_of : File → List Line
lines_of none = []
lines_of (some ls) = ls

touched_lines : (f : File) → touched f ≡ some (lines_of f)
touched_lines none = refl
touched_lines (some ls) = refl

-- A record whose values can all be encoded is appended as one line, with the texts or values that
-- they are stored as, and an absent file is made for it. For any other record the write raises a
-- TypeError, which is no exception of the package, and no line is added; but an absent file is made
-- all the same, and is empty.
pub write_raw_line_lem :
    (rec : RawDocument) (f : File)
    → write_raw_line rec f ≡ (
        if all_encodable rec
        then (ok tt, some (lines_of f ++ json (stored_fields rec) ∷ []))
        else (err type_error, some (lines_of f)))
unfolding write_raw_line write_line
write_raw_line_lem rec f = elim (Bool-cases (all_encodable rec)) [
  | inl q ↦ rw (write_raw_line, dumps-stored rec, q, touched_lines f) refl
  | inr q ↦ rw (write_raw_line, dumps-stored rec, q, touched_lines f) refl
]
