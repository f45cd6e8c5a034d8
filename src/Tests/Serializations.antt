-- ===== src/Tests/Serializations.antt =====
-- Records with values that JSON does not have.
use jsonpy_sql.Prelude.{◌≡◌, refl, none, some, [], ◌∷◌, ◌++◌, if◌then◌else◌}
use jsonpy_sql.Python.Value.{str}
use jsonpy_sql.Python.Result.{ok, err, type_error}
use jsonpy_sql.Storage.DocumentStore.{json}
use jsonpy_sql.Storage.Serialization.{
  Moment, RawDocument, native, datetime, decimal, other, write_raw_line,
}
use jsonpy_sql.Storage.Serialization.Writes.{
  all_encodable, stored_fields, lines_of, write_raw_line_lem,
}

abbrev new_year : Moment
new_year = record { isoformat = "2024-01-01T00:00:00"; text = "2024-01-01 00:00:00" }

abbrev order : RawDocument
order = ("at", datetime new_year) ∷ ("price", decimal "9.90") ∷ ("by", native (str "Ann")) ∷ []

abbrev with_set : RawDocument
with_set = ("at", datetime new_year) ∷ ("tags", other) ∷ []

order_text :
    stored_fields order
    ≡ ("at", str "2024-01-01T00:00:00") ∷ ("price", str "9.90") ∷ ("by", str "Ann") ∷ []
order_text = refl

with_set_refused : write_raw_line with_set none ≡ (err type_error, some [])
with_set_refused = write_raw_line_lem with_set none

write_raw_line_lem_example : write_raw_line order none ≡ (
    if all_encodable order
    then (ok tt, some (lines_of none ++ json (stored_fields order) ∷ []))
    else (err type_error, some (lines_of none)))
write_raw_line_lem_example = write_raw_line_lem order none
