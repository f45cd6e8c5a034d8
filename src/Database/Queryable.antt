-- ===== src/Database/Queryable.antt =====
-- `_QueryableCollection`, through which a collection of a `Database` is written and queried.
use jsonpy_sql.Prelude.{ℕ, String, Bool, Option, none, some, List}
use jsonpy_sql.Python.Dict.{string_key}
use jsonpy_sql.Python.Value.{Document}
use jsonpy_sql.Python.Result.{Result, ok, err, type_error, ◌>>=◌}
use jsonpy_sql.Storage.SortedDict.{SortedDict}
use jsonpy_sql.Storage.Engine.{Engine}
use jsonpy_sql.Query.Planner.{Predicate}
use jsonpy_sql.Query.Builder as Builder
use jsonpy_sql.Query.Builder.{QueryBuilder, new_builder}
use jsonpy_sql.Schema.Fields.{Pydantic}
use jsonpy_sql.Schema.Collection as Schema
use jsonpy_sql.Schema.Documents as Documents
use jsonpy_sql.Schema.Registry.{Collection, schema_backed, schema_free}

-- `_QueryableCollection`
pub record QueryableCollection (M : Type 0) : Type 0 where
  pub col : Collection M
  pub indexed_fields : List String
  pub collection_size : ℕ

abbrev pub name_of : {M : Type 0} → Collection M → String
name_of (schema_backed c) = c.name
name_of (schema_free c) = c.name

module _ {M : Type 0} where
  -- `_builder`, with the default threshold for hash joins
  unfoldable pub builder : QueryableCollection M → QueryBuilder
  builder q = new_builder (name_of q.col) q.indexed_fields q.collection_size 10000

  unfoldable pub where_ : Predicate → QueryableCollection M → QueryBuilder
  where_ predicate q = Builder.where_ predicate (builder q)

  unfoldable pub join :
      String → (Document → Document → Result Bool) → ℕ → QueryableCollection M → QueryBuilder
  join collection on size q = Builder.join collection on size (builder q)

  unfoldable pub order_by : String → Bool → QueryableCollection M → QueryBuilder
  order_by f descending q = Builder.order_by f descending (builder q)

  unfoldable pub limit : ℕ → QueryableCollection M → QueryBuilder
  limit n q = Builder.limit n (builder q)

  unfoldable pub group_by : List String → QueryableCollection M → QueryBuilder
  group_by fields q = Builder.group_by fields (builder q)

module _ {S : Type 0} {M : Type 0} where
  unfoldable pub get : String → QueryableCollection M → Engine S → Result (Option Document)
  get doc_id q e = elim q.col [
    | schema_backed c ↦ Schema.get doc_id c e
    | schema_free c ↦ Documents.get doc_id c e
  ]

module _ {S : Type 0} {M : Type 0} ⦃sd : SortedDict S⦄ where
  unfoldable pub all : QueryableCollection M → Engine S → Result (List Document)
  all q e = Builder.to_list (builder q) e

  unfoldable pub delete : String → QueryableCollection M → Engine S → Result (Engine S)
  delete doc_id q e = elim q.col [
    | schema_backed c ↦ Schema.delete doc_id c e
    | schema_free c ↦ Documents.delete doc_id c e
  ]

abbrev pub insert_free :
    {S : Type 0}
    → ⦃sd : SortedDict S⦄ → Option String
    → Document
    → Documents.DocumentCollection
    → Engine S
    → Result (Option String × Engine S)
insert_free none document c e = err type_error
insert_free (some doc_id) document c e =
    Documents.insert doc_id document c e >>= λ e'. ok (none, e')

module _ {S : Type 0} {M : Type 0} ⦃sd : SortedDict S⦄ ⦃pyd : Pydantic M⦄ where
  unfoldable pub update : String → Document → QueryableCollection M → Engine S → Result (Engine S)
  update doc_id document q e = elim q.col [
    | schema_backed c ↦ Schema.update doc_id document c e
    | schema_free c ↦ Documents.update doc_id document c e
  ]

  abbrev pub insert_schema :
      Option String
      → String
      → Document
      → Schema.SchemaCollection M
      → Engine S
      → Result (Option String × Engine S)
  insert_schema none generated document c e =
      Schema.insert generated document c e >>= λ r. ok (some r.0, r.1)
  insert_schema (some _) generated document c e = err type_error

  -- `insert(*args)`: a schema collection takes a document, another an id and a document.
  unfoldable pub insert :
      Option String
      → String
      → Document
      → QueryableCollection M
      → Engine S
      → Result (Option String × Engine S)
  insert doc_id generated document q e = elim q.col [
    | schema_backed c ↦ insert_schema doc_id generated document c e
    | schema_free c ↦ insert_free doc_id document c e
  ]
