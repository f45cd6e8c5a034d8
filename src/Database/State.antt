-- ===== src/Database/State.antt =====
-- The state of a `Database`, its methods, its statistics and `_FunctionAccessor`.
use text.Mathlib.Text.{starts_with}
use jsonpy_sql.Prelude.{ℕ, ◌+◌, String, Bool, Option, none, some, List, [], ◌∷◌, if◌then◌else◌}
use jsonpy_sql.Python.Dict as D
use jsonpy_sql.Python.Dict.{Dict, string_key}
use jsonpy_sql.Python.Result.{Result, ok, err, schema_error, attribute_error, ◌>>=◌}
use jsonpy_sql.Storage.SortedDict.{SortedDict}
use jsonpy_sql.Storage.DocumentStore.{Line}
use jsonpy_sql.Storage.IndexManager.{IndexManager, IndexSpec, str_mem}
use jsonpy_sql.Storage.Engine as Engine
use jsonpy_sql.Storage.Engine.{Engine, CollectionStats, Directory, get_stats}
use jsonpy_sql.Schema.Fields.{Pydantic}
use jsonpy_sql.Schema.Registry as Registry
use jsonpy_sql.Schema.Registry.{
  CollectionManager, Collection, schema_backed, schema_free, Call, ◌and_then◌, collection_manager,
}
use jsonpy_sql.Schema.Functions as Functions
use jsonpy_sql.Schema.Functions.{Dill, FunctionRegistry, function_registry}
use jsonpy_sql.Database.Queryable.{QueryableCollection}

pub record DatabaseStats : Type 0 where
  pub collections : List CollectionStats

abbrev sum_counts : List CollectionStats → ℕ
sum_counts [] = 0
sum_counts (s ∷ stats) = s.document_count + sum_counts stats

unfoldable pub total_documents : DatabaseStats → ℕ
total_documents d = sum_counts d.collections

pub record Database (S M F B : Type 0) : Type 0 where
  pub manager : CollectionManager S M
  pub fn_registry : FunctionRegistry F B

unfoldable pub stats_of :
    {S : Type 0} → (List Line → ℕ) → List String → Engine S → Result (List CollectionStats)
stats_of size_of [] e = ok []
stats_of size_of (name ∷ names) e = do
  s ← get_stats size_of name e
  rest ← stats_of size_of names e
  ok (s ∷ rest)

-- `{spec.fields[0] for spec in im._specs if len(spec.fields) == 1}`
abbrev pub single_field : List String → Option String
single_field [] = none
single_field (f ∷ []) = some f
single_field (f ∷ g ∷ fs) = none

abbrev pub single_fields : {S : Type 0} → List (IndexSpec × S) → List String
single_fields [] = []
single_fields ((spec, idx) ∷ xs) =
    let rest = single_fields xs in
    elim (single_field spec.fields) [ none ↦ rest | some f ↦ f ∷ rest ]

abbrev pub fields_of : {S : Type 0} → Option (IndexManager S) → List String
fields_of none = []
fields_of (some im) = single_fields im.indexes

-- What `_FunctionAccessor` resolves a name to: a callable as it is, a procedure bound to the
-- database, or a method of the registry.
pub data Attribute (F : Type 0) : Type 0 where
  callable bound : F → Attribute F
  method : String → Attribute F

abbrev pub methods : List String
methods =
    "register_function" ∷ "register_procedure" ∷ "get_function" ∷ "get_procedure" ∷ "list_functions"
    ∷ "list_procedures" ∷ "load" ∷ []

abbrev pub as_callable : {F : Type 0} → Result F → Result (Attribute F)
as_callable r = r >>= λ fn. ok (callable fn)

module _ {S M F B : Type 0} where
  abbrev pub engine_of : Database S M F B → Engine S
  engine_of db = db.manager.engine

  -- `_FunctionAccessor.__getattr__`
  unfoldable pub resolve : String → Database S M F B → Result (Attribute F)
  resolve name db =
      if starts_with name "_"
      then err attribute_error
      else (elim (D.get name db.fn_registry.procedures) [
        | some fn ↦ ok (bound fn)
        | none ↦
            if str_mem name methods
            then ok (method name)
            else as_callable (Functions.getattr name db.fn_registry)
      ])

  -- What a call of the manager leaves in the database
  abbrev pub on_manager :
      {A : Type 0} → Database S M F B → Call A (CollectionManager S M) → Call A (Database S M F B)
  on_manager db (r, m) = (r, record db { manager = m })

  abbrev pub on_functions :
      {A : Type 0} → Database S M F B → Call A (FunctionRegistry F B) → Call A (Database S M F B)
  on_functions db (r, fs) = (r, record db { fn_registry = fs })

  unfoldable pub has_collection : String → Database S M F B → Bool
  has_collection name db = Registry.has_collection name db.manager

  unfoldable pub list_collections : Database S M F B → List String
  list_collections db = Registry.list_collections db.manager

  -- `_get_indexed_fields`
  unfoldable pub get_indexed_fields : String → Database S M F B → List String
  get_indexed_fields collection db = fields_of (D.get collection (engine_of db).managers)

  -- `__getattr__`, with the sizes of files as the file system reports them
  unfoldable pub getattr :
      (List Line → ℕ) → String → Database S M F B → Result (QueryableCollection M)
  getattr size_of name db = if starts_with name "_" then err attribute_error else (do
    col ← Registry.get_collection name db.manager
    stats ← get_stats size_of name (engine_of db)
    ok (record {
      col = col;
      indexed_fields = get_indexed_fields name db;
      collection_size = stats.document_count;
    }))

  unfoldable pub stats : (List Line → ℕ) → Database S M F B → Result DatabaseStats
  stats size_of db = do
    col_stats ← stats_of size_of (list_collections db) (engine_of db)
    ok (record { collections = col_stats })

module _ {S M F B : Type 0} ⦃sd : SortedDict S⦄ where
  unfoldable pub drop_collection : String → Database S M F B → Call (Unit {0}) (Database S M F B)
  drop_collection name db = on_manager db (Registry.drop_collection name db.manager)

  -- `self._engine.compact(name)`
  unfoldable pub compact_one : String → Database S M F B → Call (Unit {0}) (Database S M F B)
  compact_one name db =
      on_manager db (Registry.with_engine db.manager (Engine.compact name (engine_of db)))

  unfoldable pub compact_all : List String → Database S M F B → Call (Unit {0}) (Database S M F B)
  compact_all [] db = (ok tt, db)
  compact_all (name ∷ names) db = compact_one name db and_then λ db'. compact_all names db'

  unfoldable pub compact : Option String → Database S M F B → Call (Unit {0}) (Database S M F B)
  compact none db = compact_all (list_collections db) db
  compact (some collection) db = compact_one collection db

module _ {S M F B : Type 0} ⦃dill : Dill F B⦄ where
  unfoldable pub function : F → Database S M F B → Call F (Database S M F B)
  function fn db = on_functions db (Functions.register_function fn db.fn_registry)

  unfoldable pub procedure : F → Database S M F B → Call F (Database S M F B)
  procedure fn db = on_functions db (Functions.register_procedure fn db.fn_registry)

module _ {S M F B : Type 0} ⦃sd : SortedDict S⦄ ⦃dill : Dill F B⦄ where
  abbrev pub opened : Engine S → Call (Unit {0}) (FunctionRegistry F B) → Result (Database S M F B)
  opened e (ok u, fs) = ok (record { manager = collection_manager e; fn_registry = fs })
  opened e (err x, fs) = err x

  -- `__init__`, over the engine's files and `functions.pkl`
  unfoldable pub open_database : Directory → Option B → Result (Database S M F B)
  open_database dir file = do
    e ← Engine.open_engine dir
    opened e (Functions.load (function_registry file))

abbrev pub returns_none : {A T : Type 0} → Call A T → Call (Unit {0}) T
returns_none (ok a, s) = (ok tt, s)
returns_none (err x, s) = (err x, s)

abbrev pub or_no_indexes : Option (List String) → List String
or_no_indexes none = []
or_no_indexes (some indexes) = indexes

module _ {S : Type 0} {M : Type 0} ⦃sd : SortedDict S⦄ ⦃pyd : Pydantic M⦄ where
  abbrev pub register_with :
      String
      → Option M
      → Option (List String)
      → Bool
      → CollectionManager S M
      → Call (Unit {0}) (CollectionManager S M)
  register_with name none indexes drop_if_exists m =
      returns_none
        (Registry.register_document_collection name (or_no_indexes indexes) drop_if_exists m)
  register_with name (some model) none drop_if_exists m =
      returns_none (Registry.register_schema_collection name model drop_if_exists m)
  register_with name (some model) (some _) drop_if_exists m = (err schema_error, m)

module _ {S M F B : Type 0} ⦃sd : SortedDict S⦄ ⦃pyd : Pydantic M⦄ where
  unfoldable pub register_collection :
      String
      → Option M
      → Option (List String)
      → Bool
      → Database S M F B
      → Call (Unit {0}) (Database S M F B)
  register_collection name model indexes drop_if_exists db =
      on_manager db (register_with name model indexes drop_if_exists db.manager)
