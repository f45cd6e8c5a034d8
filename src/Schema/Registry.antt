-- ===== src/Schema/Registry.antt =====
-- schema/registry.py: `CollectionManager`. It refers to the engine, and both change together; a call
-- that raises has the state that it leaves.
pub mod Calls
pub mod Registration
pub mod Backed
pub mod Sessions
use text.Mathlib.Text.{◌==◌ as str_eq}
use jsonpy_sql.Prelude.{
  String, Bool, true, false, not, Option, none, some, List, [], ◌∷◌, ◌++◌, map, ◌||◌, if◌then◌else◌,
}
use jsonpy_sql.Python.Dict as D
use jsonpy_sql.Python.Dict.{Dict, string_key}
use jsonpy_sql.Python.Value.{str_le}
use jsonpy_sql.Python.Result.{Result, ok, err, storage_error, collection_exists_error}
use jsonpy_sql.Storage.SortedDict.{SortedDict}
use jsonpy_sql.Storage.IndexManager.{IndexSpec, str_mem}
use jsonpy_sql.Storage.Engine as Engine
use jsonpy_sql.Storage.Engine.{Engine}
use jsonpy_sql.Schema.Fields.{
  Pydantic, ForeignKeyMeta, get_primary_key_field, get_indexed_fields, get_unique_fields,
  get_foreign_keys, collection_name,
}
use jsonpy_sql.Schema.Constraints.{Checker}
use jsonpy_sql.Schema.Collection.{SchemaCollection, schema_collection}
use jsonpy_sql.Schema.Documents.{DocumentCollection}

-- `_fk_registry` is never read or written after `__init__`.
pub record CollectionManager (S M : Type 0) : Type 0 where
  pub engine : Engine S
  pub schema_cols : Dict String (SchemaCollection M)
  pub doc_cols : Dict String DocumentCollection

-- What `get_collection` returns.
pub data Collection (M : Type 0) : Type 0 where
  schema_backed : SchemaCollection M → Collection M
  schema_free : DocumentCollection → Collection M

-- A call returns or raises, and leaves a state.
abbrev pub Call : Type 0 → Type 0 → Type 0
Call A T = Result A × T

-- The rest of a method, which runs if the call has returned.
infixl 5 ◌and_then◌
abbrev pub ◌and_then◌ : {A B T : Type 0} → Call A T → (T → Call B T) → Call B T
(ok a, s) and_then rest = rest s
(err x, s) and_then rest = (err x, s)

abbrev pub or_id : Option String → String
or_id none = "id"
or_id (some pk) = if str_eq pk "" then "id" else pk

-- `sorted` of a set of names
abbrev insert_name : String → List String → List String
insert_name n [] = n ∷ []
insert_name n (m ∷ ms) =
    let rest = insert_name n ms in
    if str_eq n m then m ∷ ms else if str_le n m then n ∷ m ∷ ms else m ∷ rest

unfoldable pub sorted_names : List String → List String
sorted_names [] = []
sorted_names (n ∷ ns) = insert_name n (sorted_names ns)

abbrev pub doc_collection : {M : Type 0} → Option DocumentCollection → Result (Collection M)
doc_collection none = err storage_error
doc_collection (some c) = ok (schema_free c)

module _ {S : Type 0} {M : Type 0} where
  -- `__init__`
  unfoldable pub collection_manager : Engine S → CollectionManager S M
  collection_manager e = record { engine = e; schema_cols = []; doc_cols = [] }

  unfoldable pub has_collection : String → CollectionManager S M → Bool
  has_collection name m = D.contains name m.schema_cols || D.contains name m.doc_cols

  unfoldable pub get_collection : String → CollectionManager S M → Result (Collection M)
  get_collection name m = elim (D.get name m.schema_cols) [
    | some c ↦ ok (schema_backed c)
    | none ↦ doc_collection (D.get name m.doc_cols)
  ]

  unfoldable pub list_collections : CollectionManager S M → List String
  list_collections m = sorted_names (map (λ c. c.0) m.schema_cols ++ map (λ c. c.0) m.doc_cols)

  -- `self._schema_cols.pop(name, None)` and `self._doc_cols.pop(name, None)`
  abbrev pub forget : String → CollectionManager S M → CollectionManager S M
  forget name m = record m {
    schema_cols = D.del name m.schema_cols;
    doc_cols = D.del name m.doc_cols;
  }

  -- The result of a call of the engine, which leaves the engine as it was if it raises.
  abbrev pub with_engine :
      CollectionManager S M → Result (Engine S) → Call (Unit {0}) (CollectionManager S M)
  with_engine m (ok e) = (ok tt, record m { engine = e })
  with_engine m (err x) = (err x, m)

module _ {M : Type 0} ⦃pyd : Pydantic M⦄ where
  -- The loop of `_build_fk_checkers`
  unfoldable pub checkers_for : String → Dict String (ForeignKeyMeta M) → Dict String Checker
  checkers_for child [] = []
  checkers_for child ((fk_field, fk) ∷ keys) =
      (
        fk_field,
        record {
          parent_collection = collection_name fk.target_model;
          parent_pk_field = or_id (get_primary_key_field fk.target_model);
          child_collection = child;
          fk_field = fk_field;
          on_delete = fk.on_delete;
        },
      )
      ∷ checkers_for child keys

  unfoldable pub build_fk_checkers : String → M → Dict String Checker
  build_fk_checkers child_col_name child_model =
      checkers_for child_col_name (get_foreign_keys child_model)

  abbrev pub specs_for : M → List IndexSpec
  specs_for model =
      map (λ f. record { fields = f ∷ []; unique = str_mem f (get_unique_fields model) })
        (get_indexed_fields model)

abbrev pub plain_specs : List String → List IndexSpec
plain_specs indexes = map (λ f. record { fields = f ∷ []; unique = false }) indexes

module _ {S : Type 0} {M : Type 0} ⦃sd : SortedDict S⦄ where
  unfoldable pub drop_collection :
      String → CollectionManager S M → Call (Unit {0}) (CollectionManager S M)
  drop_collection name m =
      if not (has_collection name m)
      then (err storage_error, m)
      else with_engine (forget name m) (Engine.drop_collection name m.engine)

  -- The guard that both kinds of registration start with
  abbrev pub make_room :
      String → Bool → CollectionManager S M → Call (Unit {0}) (CollectionManager S M)
  make_room name drop_if_exists m =
      if has_collection name m
      then (if drop_if_exists then drop_collection name m else (err collection_exists_error, m))
      else (ok tt, m)

  abbrev pub drop_engine : String → CollectionManager S M → Call (Unit {0}) (CollectionManager S M)
  drop_engine name m = with_engine m (Engine.drop_collection name m.engine)

  abbrev pub create_engine :
      String → List IndexSpec → CollectionManager S M → Call (Unit {0}) (CollectionManager S M)
  create_engine name specs m = with_engine m (Engine.create_collection name specs false m.engine)

  -- The part on `engine_has_it`, of both kinds of registration
  unfoldable pub ensure_engine :
      String
      → List IndexSpec
      → Bool
      → CollectionManager S M
      → Call (Unit {0}) (CollectionManager S M)
  ensure_engine name specs drop_if_exists m =
      if not (D.contains name m.engine.managers)
      then create_engine name specs m
      else if drop_if_exists
      then (drop_engine name m and_then λ s. create_engine name specs s)
      else (ok tt, m)

  unfoldable pub register_document_collection :
      String
      → List String
      → Bool
      → CollectionManager S M
      → Call DocumentCollection (CollectionManager S M)
  register_document_collection name indexes drop_if_exists m =
      make_room name drop_if_exists m
      and_then (λ s. ensure_engine name (plain_specs indexes) drop_if_exists s)
      and_then λ s.
          let col : DocumentCollection = record { name = name } in
          (ok col, record s { doc_cols = D.set name col s.doc_cols })

module _ {S : Type 0} {M : Type 0} ⦃sd : SortedDict S⦄ ⦃pyd : Pydantic M⦄ where
  unfoldable pub register_schema_collection :
      String → M → Bool → CollectionManager S M → Call (SchemaCollection M) (CollectionManager S M)
  register_schema_collection name model drop_if_exists m =
      make_room name drop_if_exists m
      and_then (λ s. ensure_engine name (specs_for model) drop_if_exists s)
      and_then λ s.
          let col = schema_collection name model (build_fk_checkers name model) in
          (ok col, record s { schema_cols = D.set name col s.schema_cols })
