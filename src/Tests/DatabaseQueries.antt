-- ===== src/Tests/DatabaseQueries.antt =====
-- A query for a name through a database with the collection `users`.
use mathlib.Core.List.{Memᴰ}
use jsonpy_sql.Prelude.{◌≡◌, refl, ℕ, String, true, none, List, [], ◌∷◌, all_of, inl}
use jsonpy_sql.Python.Dict as D
use jsonpy_sql.Python.Dict.{string_key}
use jsonpy_sql.Python.Value.{str, truthy, Document}
use jsonpy_sql.Python.Result.{ok}
use jsonpy_sql.Storage.SortedDict.{Postings}
use jsonpy_sql.Storage.DocumentStore as Store
use jsonpy_sql.Storage.DocumentStore.{Line}
use jsonpy_sql.Storage.Engine.{get_stats, require}
use jsonpy_sql.Query.Planner.{equality_access, parse_predicate}
use jsonpy_sql.Query.Builder.{to_list}
use jsonpy_sql.Query.IndexedQuery.{lambda_of}
use jsonpy_sql.Schema.Registry as Registry
use jsonpy_sql.Schema.Registry.{schema_free, collection_manager}
use jsonpy_sql.Database.{Database, QueryableCollection, getattr, get_indexed_fields, where_}
use jsonpy_sql.Database.TextQueries.{database_query_complete}
use jsonpy_sql.Tests.Instances.{entry_list}
use jsonpy_sql.Tests.Collections.{ann, users}
use jsonpy_sql.Tests.Engines.{users-IsReady}
use jsonpy_sql.Tests.Indexes.{users-IsIndexed}
use jsonpy_sql.Tests.IndexedQueries.{named_ann, decided, is_named, read_ann}
use jsonpy_sql.Tests.Models.{Model}
use jsonpy_sql.Tests.Queries.{is_ann, raising, ann_plan}

abbrev db : Database Postings Model String String
db = record {
  manager = record {
    engine = users;
    schema_cols = [];
    doc_cols = ("users", record { name = "users" }) ∷ [];
  };
  fn_registry = record { functions = []; procedures = []; file = none };
}

abbrev no_bytes : List Line → ℕ
no_bytes ls = 0

abbrev users_queries : QueryableCollection Model
users_queries = record {
  col = schema_free (record { name = "users" });
  indexed_fields = "name" ∷ [];
  collection_size = 1;
}

handed : getattr no_bytes "users" db ≡ ok users_queries
unfolding getattr Registry.get_collection get_stats get_indexed_fields require Store.count_lines
    Store.count_loop Store.iter_lines Store.parse D.get truthy
handed = refl

fields_named :
    parse_predicate (lambda_of raising "x" is_ann).source (get_indexed_fields "users" db)
    ≡ ok (equality_access ("name", str "Ann"))
unfolding get_indexed_fields D.get
fields_named = ann_plan

database_query_complete_example :
    (ds : List Document) × (to_list (where_ (lambda_of raising "x" is_ann) users_queries) users
      ≡ ok ds)
    × (all_of named_ann ds ≡ true)
    × Memᴰ ann ds
database_query_complete_example =
    database_query_complete raising no_bytes "users" "x" "name" "1" is_ann named_ann
      (equality_access ("name", str "Ann")) db users_queries ann handed refl decided fields_named
      refl (inl (refl, "Ann", refl)) refl users-IsReady users-IsIndexed read_ann is_named
