-- ===== src/Schema/Fields.antt =====
-- schema/fields.py and schema/validator.py. Pydantic is not part of the repository: `Pydantic M` is
-- what the program reads of its model classes `M`.
use Prim.Native.String.{◌++◌ as str_append}
use jsonpy_sql.Prelude.{
  String, Bool, false, Option, none, some, List, [], ◌∷◌, ◌++◌, ◌||◌, if◌then◌else◌,
}
use jsonpy_sql.Python.Dict as D
use jsonpy_sql.Python.Dict.{Dict, string_key}
use jsonpy_sql.Python.Value.{Document}
use jsonpy_sql.Python.Result.{Result, ok, err, validation_error}

pub record FieldMeta : Type 0 where
  pub primary_key : Bool
  pub index : Bool
  pub unique : Bool
  pub nullable : Bool

pub data OnDelete : Type 0 where
  restrict cascade set_null : OnDelete

pub record ForeignKeyMeta (M : Type 0) : Type 0 where
  pub target_model : M
  pub on_delete : OnDelete

-- An item of the `metadata` of a `FieldInfo`: the program's own, or one of Pydantic.
pub data Metadata (M : Type 0) : Type 0 where
  field_meta : FieldMeta → Metadata M
  fk_meta : ForeignKeyMeta M → Metadata M
  constraint : Metadata M

-- `model_validate` with `model_dump(mode="json")` is none for a document that does not fit.
pub record Pydantic (M : Type 0) : Type 0 where
  pub class_name : M → String
  pub model_fields : M → Dict String (List (Metadata M))
  pub model_validate : M → Document → Option Document
  -- `str.lower`, of the names of classes
  pub lower : String → String

-- `meta and meta.primary_key`, and the like
abbrev pub marks : (FieldMeta → Bool) → Option FieldMeta → Bool
marks p none = false
marks p (some meta) = p meta

-- `meta and (meta.index or meta.unique)`
abbrev pub is_indexed : FieldMeta → Bool
is_indexed meta = meta.index || meta.unique

module _ {M : Type 0} where
  -- `field(...)`, over the metadata that `pydantic.Field` gives
  unfoldable pub declare_field : FieldMeta → List (Metadata M) → List (Metadata M)
  declare_field meta info = info ++ field_meta meta ∷ []

  unfoldable pub foreign_key : M → OnDelete → List (Metadata M) → List (Metadata M)
  foreign_key target_model on_delete info =
      info ++ fk_meta (record { target_model = target_model; on_delete = on_delete }) ∷ []

  unfoldable pub get_field_meta : List (Metadata M) → Option FieldMeta
  get_field_meta [] = none
  get_field_meta (field_meta meta ∷ info) = some meta
  get_field_meta (fk_meta meta ∷ info) = get_field_meta info
  get_field_meta (constraint ∷ info) = get_field_meta info

  unfoldable pub get_fk_meta : List (Metadata M) → Option (ForeignKeyMeta M)
  get_fk_meta [] = none
  get_fk_meta (field_meta meta ∷ info) = get_fk_meta info
  get_fk_meta (fk_meta meta ∷ info) = some meta
  get_fk_meta (constraint ∷ info) = get_fk_meta info

  -- The loop of `get_primary_key_field`
  unfoldable pub declared_key : Dict String (List (Metadata M)) → Option String
  declared_key [] = none
  declared_key ((name, info) ∷ fields) =
      if marks (λ meta. meta.primary_key) (get_field_meta info)
      then some name
      else declared_key fields

  -- The loops of `get_indexed_fields` and `get_unique_fields`
  unfoldable pub marked_fields : (FieldMeta → Bool) → Dict String (List (Metadata M)) → List String
  marked_fields p [] = []
  marked_fields p ((name, info) ∷ fields) =
      if marks p (get_field_meta info)
      then name ∷ marked_fields p fields
      else marked_fields p fields

  -- The loop of `get_foreign_keys`; the names of the fields are distinct.
  unfoldable pub keys_of : Dict String (List (Metadata M)) → Dict String (ForeignKeyMeta M)
  keys_of [] = []
  keys_of ((name, info) ∷ fields) = elim (get_fk_meta info) [
    | none ↦ keys_of fields
    | some fk ↦ (name, fk) ∷ keys_of fields
  ]

module _ {M : Type 0} ⦃pyd : Pydantic M⦄ where
  unfoldable pub get_primary_key_field : M → Option String
  get_primary_key_field model = elim (declared_key (pyd.model_fields model)) [
    | some name ↦ some name
    | none ↦ if D.contains "id" (pyd.model_fields model) then some "id" else none
  ]

  unfoldable pub get_indexed_fields : M → List String
  get_indexed_fields model = marked_fields is_indexed (pyd.model_fields model)

  unfoldable pub get_unique_fields : M → List String
  get_unique_fields model = marked_fields (λ meta. meta.unique) (pyd.model_fields model)

  unfoldable pub get_foreign_keys : M → Dict String (ForeignKeyMeta M)
  get_foreign_keys model = keys_of (pyd.model_fields model)

  -- `Validator.validate`
  unfoldable pub validate : M → Document → Result Document
  validate model document = elim (pyd.model_validate model document) [
    | none ↦ err validation_error
    | some d ↦ ok d
  ]

  -- `target_model.__name__.lower() + "s"`
  abbrev pub collection_name : M → String
  collection_name model = str_append (pyd.lower (pyd.class_name model)) "s"
