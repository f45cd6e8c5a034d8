-- ===== src/Database/Access.antt =====
-- What the database hands to its queries, and what a database that was opened again reads.
use jsonpy_sql.Prelude.{
  ◌≡◌, refl, sym, ◌∙◌, ap, String, Bool, true, false, Option, none, some, List, [], ◌∷◌, arith,
  ◌&&◌, if◌then◌else◌, Option-cases, inl, inr,
}
use jsonpy_sql.Python.Dict as D
use jsonpy_sql.Python.Dict.{Dict, string_key}
use jsonpy_sql.Python.Result.{ok, err, ok-injective, call_returned}
use jsonpy_sql.Storage.SortedDict.{SortedDict}
use jsonpy_sql.Storage.IndexManager.{IndexSpec, find_index_for, str_mem, only_field}
use jsonpy_sql.Storage.Engine as Engine
use jsonpy_sql.Storage.Engine.{Engine, registry}
use jsonpy_sql.Storage.Engine.Declared.{has_index, is_some, has_index_is}
use jsonpy_sql.Storage.Engine.Reopening.{directory_of, get-open_engine, contains-open_engine}
use jsonpy_sql.Schema.Fields.{Pydantic}
use jsonpy_sql.Schema.Functions as Functions
use jsonpy_sql.Schema.Functions.{Dill, FunctionRegistry, function_registry}
use jsonpy_sql.Schema.Registry as Registry
use jsonpy_sql.Schema.Registry.{
  CollectionManager, Call, ◌and_then◌, collection_manager, make_room, drop_collection, drop_engine,
  create_engine, ensure_engine,
}
use jsonpy_sql.Database.State.{
  Database, engine_of, get_indexed_fields, single_field, single_fields, opened, open_database,
  register_with, register_collection,
}

single_field_lem :
    (f : String) (fs : List String) (rest : List String)
    → str_mem f (elim (single_field fs) [ none ↦ rest | some g ↦ g ∷ rest ])
      ≡ (if only_field f fs then true else str_mem f rest)
single_field_lem f [] rest = refl
single_field_lem f (g ∷ []) rest = refl
single_field_lem f (g ∷ h ∷ fs) rest = refl

-- Whether an optional argument is not `None`
abbrev pub given : {A : Type 0} → Option A → Bool
given none = false
given (some _) = true

module _ {S : Type 0} ⦃sd : SortedDict S⦄ where
  single_fields_lem :
      (f : String) (xs : List (IndexSpec × S))
      → str_mem f (single_fields xs) ≡ is_some (find_index_for f xs)
  unfolding find_index_for
  single_fields_lem f [] = refl
  single_fields_lem f ((spec, idx) ∷ xs) =
      single_field_lem f spec.fields (single_fields xs) ∙ ground (arith, single_fields_lem f xs)

module _ {S M F B : Type 0} ⦃sd : SortedDict S⦄ where
  -- The indexed fields that the database gives to a query of a collection are the fields for which
  -- `lookup` and `range_scan` of that collection's manager have an index.
  pub get_indexed_fields-has_index :
      (col f : String) (db : Database S M F B)
      → str_mem f (get_indexed_fields col db) ≡ has_index col f (engine_of db)
  unfolding get_indexed_fields
  get_indexed_fields-has_index col f db = elim (Option-cases (D.get col (engine_of db).managers)) [
    | inl q ↦ rw q refl
    | inr (im, q) ↦ rw q (single_fields_lem f im.indexes ∙ sym (has_index_is f im))
  ]

module _ {S M : Type 0} ⦃sd : SortedDict S⦄ ⦃pyd : Pydantic M⦄ where
  -- The registration of a collection that the engine has and the manager does not know.
  registered_again :
      (name : String) (model : Option M) (indexes : Option (List String))
      (m : CollectionManager S M)
      → (given model && given indexes) ≡ false
      → Registry.has_collection name m ≡ false
      → D.contains name m.engine.managers ≡ true
      → ((register_with name model indexes false m).0 ≡ ok tt)
        × ((register_with name model indexes false m).1.engine ≡ m.engine)
  unfolding Registry.register_document_collection Registry.register_schema_collection ensure_engine
  registered_again name none indexes m one free there =
      (rw (free, there) refl, rw (free, there) refl)
  registered_again name (some model) none m one free there =
      (rw (free, there) refl, rw (free, there) refl)
  registered_again name (some model) (some indexes) m one free there = absurd (cc)

module _ {S M F B : Type 0} ⦃sd : SortedDict S⦄ ⦃dill : Dill F B⦄ where
  fresh :
      (dir : Engine.Directory) (file : Option B) (db : Database S M F B)
      → open_database dir file ≡ ok db
      → (Engine.open_engine dir ≡ ok (engine_of db))
        × ((name : String) → Registry.has_collection name db.manager ≡ false)
  unfolding open_database Registry.has_collection collection_manager D.get
  fresh dir file db h =
      let (e, p, q) = call_returned (Engine.open_engine dir) _ h in
      go e p (Functions.load (function_registry file)) q
    where
      go :
          (e : Engine S)
          → Engine.open_engine dir ≡ ok e
          → (r : Call (Unit {0}) (FunctionRegistry F B)) → opened e r ≡ ok db
          → (Engine.open_engine dir ≡ ok (engine_of db))
            × ((name : String) → Registry.has_collection name db.manager ≡ false)
      go e p (ok u, fs) q =
          let same : record { manager = collection_manager e; fn_registry = fs } ≡ db =
            ok-injective q in
          rw (← same) (p, λ name. refl)
      go e p (err x, fs) q = absurd (cc)

module _ {S M F B : Type 0} ⦃sd : SortedDict S⦄ ⦃dill : Dill F B⦄ ⦃pyd : Pydantic M⦄ where
  -- If an engine leaves no log and a saved manifest, and has a manager for a collection just where
  -- it has specs, then a database that is opened over its directory and registers one of its
  -- collections again, by a model or as a document collection, returns from that and reads in the
  -- collection what the engine did.
  pub get-reopened :
      (name c j : String) (model : Option M) (indexes : Option (List String)) (file : Option B)
      (e : Engine S) (db : Database S M F B)
      → e.wals ≡ []
      → e.manifest ≡ registry e.specs
      → D.contains name e.specs ≡ true
      → D.contains c e.managers ≡ D.contains c e.specs
      → (given model && given indexes) ≡ false
      → open_database (directory_of e) file ≡ ok db
      → ((register_collection name model indexes false db).0 ≡ ok tt)
        × (Engine.get c j (engine_of (register_collection name model indexes false db).1)
            ≡ Engine.get c j e)
  unfolding register_collection
  get-reopened name c j model indexes file e db logs saved there keyed one h =
      let (made, free) = fresh (directory_of e) file db h in
      let still : D.contains name (engine_of db).managers ≡ true =
        contains-open_engine name e (engine_of db) logs saved made ∙ there in
      let (returned, same) = registered_again name model indexes db.manager one (free name) still in
      (
        returned,
        ap (Engine.get c j) same ∙ get-open_engine c j e (engine_of db) logs saved keyed made,
      )
