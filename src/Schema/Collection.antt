-- ===== src/Schema/Collection.antt =====
-- schema/collection.py: `SchemaCollection`. A collection refers to the
-- engine; here the engine is passed along. The id that `uuid4` draws is an argument.
pub mod Reverse
pub mod Unique
pub mod Sound
pub mod Parts
pub mod Runs
pub mod References
pub mod ReferenceRuns
pub mod Deletes
pub mod Outcomes
use text.Mathlib.Text.{◌==◌ as str_eq}
use jsonpy_sql.Prelude.{
  String, Bool, true, false, not, Option, none, some, List, [], ◌∷◌, if◌then◌else◌,
}
use jsonpy_sql.Python.Dict as D
use jsonpy_sql.Python.Dict.{Dict, string_key}
use jsonpy_sql.Python.Value.{Value, is_none, to_str, Document, field}
use jsonpy_sql.Python.Result.{Result, ok, err, storage_error, ◌>>=◌}
use jsonpy_sql.Storage.SortedDict.{SortedDict}
use jsonpy_sql.Storage.IndexManager.{IndexManager, add_reverse, remove_reverse}
use jsonpy_sql.Storage.Engine as Engine
use jsonpy_sql.Storage.Engine.{Engine}
use jsonpy_sql.Schema.Fields.{
  Pydantic, ForeignKeyMeta, get_primary_key_field, get_unique_fields, get_foreign_keys, validate,
}
use jsonpy_sql.Schema.Constraints.{Checker, check_insert, check_update, check_children}

pub record SchemaCollection (M : Type 0) : Type 0 where
  pub name : String
  pub model : M
  pub pk_field : Option String
  pub unique_fields : List String
  pub fk_meta : Dict String (ForeignKeyMeta M)
  pub fk_checkers : Dict String Checker

abbrev pub id_from : Option Value → String → String
id_from none generated = generated
id_from (some v) generated = to_str v

-- `_extract_or_generate_id`
unfoldable pub extract_or_generate_id : Option String → String → Document → String
extract_or_generate_id none generated document = generated
extract_or_generate_id (some pk) generated document =
    if str_eq pk "" then generated else id_from (D.get pk document) generated

module _ {S : Type 0} where
  -- `im = self._engine._indexes.get(name)` and a call on it, if it is there
  abbrev pub on_manager : String → (IndexManager S → IndexManager S) → Engine S → Engine S
  on_manager name f e = elim (D.get name e.managers) [
    | none ↦ e
    | some im ↦ record e { managers = D.set name (f im) e.managers }
  ]

module _ {S : Type 0} {M : Type 0} ⦃sd : SortedDict S⦄ where
  -- The loop of `_register_fk_reverse`
  unfoldable pub register_keys :
      String → Dict String (ForeignKeyMeta M) → String → Document → Engine S → Engine S
  register_keys name [] doc_id document e = e
  register_keys name ((f, fk) ∷ keys) doc_id document e =
      let parent_id = field f document in
      register_keys name keys doc_id document
        (if is_none parent_id then e else on_manager name (add_reverse (to_str parent_id) doc_id) e)

  -- The loop of `_unregister_fk_reverse`
  unfoldable pub unregister_keys :
      String → Dict String (ForeignKeyMeta M) → String → Document → Engine S → Engine S
  unregister_keys name [] doc_id document e = e
  unregister_keys name ((f, fk) ∷ keys) doc_id document e =
      let parent_id = field f document in
      unregister_keys name keys doc_id document (
        if is_none parent_id
        then e
        else on_manager name (remove_reverse (to_str parent_id) doc_id) e)

  abbrev pub register_fk_reverse : SchemaCollection M → String → Document → Engine S → Engine S
  register_fk_reverse c doc_id document e = register_keys c.name c.fk_meta doc_id document e

  abbrev pub unregister_fk_reverse : SchemaCollection M → String → Document → Engine S → Engine S
  unregister_fk_reverse c doc_id document e = unregister_keys c.name c.fk_meta doc_id document e

  abbrev pub unregister_if : SchemaCollection M → String → Option Document → Engine S → Engine S
  unregister_if c doc_id none e = e
  unregister_if c doc_id (some d) e = unregister_fk_reverse c doc_id d e

abbrev pub or_missing : Option Document → Result Document
or_missing none = err storage_error
or_missing (some d) = ok d

module _ {M : Type 0} ⦃pyd : Pydantic M⦄ where
  -- `SchemaCollection.__init__`
  unfoldable pub schema_collection : String → M → Dict String Checker → SchemaCollection M
  schema_collection name model fk_checkers = record {
    name = name;
    model = model;
    pk_field = get_primary_key_field model;
    unique_fields = get_unique_fields model;
    fk_meta = get_foreign_keys model;
    fk_checkers = fk_checkers;
  }

module _ {S : Type 0} {M : Type 0} ⦃sd : SortedDict S⦄ where
  -- `delete`: the loop over the checkers does nothing.
  unfoldable pub delete : String → SchemaCollection M → Engine S → Result (Engine S)
  delete doc_id c e = do
    doc ← Engine.get c.name doc_id e
    written ← Engine.delete c.name doc_id e
    ok (unregister_if c doc_id doc written)

module _ {S : Type 0} {M : Type 0} ⦃sd : SortedDict S⦄ ⦃pyd : Pydantic M⦄ where
  -- `insert`, with the id of the document
  unfoldable pub insert :
      String → Document → SchemaCollection M → Engine S → Result (String × Engine S)
  insert generated document c e = do
    validated ← validate c.model document
    let doc_id = extract_or_generate_id c.pk_field generated validated
    u ← check_insert c.name c.unique_fields validated e
    v ← check_children c.fk_checkers validated e
    written ← Engine.insert c.name doc_id validated e
    ok (doc_id, register_fk_reverse c doc_id validated written)

  unfoldable pub update : String → Document → SchemaCollection M → Engine S → Result (Engine S)
  update doc_id document c e = do
    validated ← validate c.model document
    found ← Engine.get c.name doc_id e
    old_doc ← or_missing found
    u ← check_update c.name c.unique_fields doc_id validated e
    v ← check_children c.fk_checkers validated e
    written ← Engine.update c.name doc_id validated (unregister_fk_reverse c doc_id old_doc e)
    ok (register_fk_reverse c doc_id validated written)

module _ {M : Type 0} {S : Type 0} where
  unfoldable pub get : String → SchemaCollection M → Engine S → Result (Option Document)
  get doc_id c e = Engine.get c.name doc_id e

  unfoldable pub scan : SchemaCollection M → Engine S → Result (List Document)
  scan c e = Engine.scan c.name e

module _ {M : Type 0} {S : Type 0} ⦃sd : SortedDict S⦄ where
  unfoldable pub lookup : String → Value → SchemaCollection M → Engine S → Result (List String)
  lookup f value c e = Engine.lookup c.name f value e

  unfoldable pub range_scan :
      String → Value → Value → SchemaCollection M → Engine S → Result (List String)
  range_scan f low high c e = Engine.range_scan c.name f low high e
