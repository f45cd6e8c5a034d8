-- ===== src/Lib.antt =====
-- JsonpySql: a document database over JSON lines files: its storage engine, its query layer, its schema
-- layer and the `Database` over them.
--
-- Parts of the program and their models:
--   Prelude, Python: shared names, and what the program uses of Python itself: dicts in the order of
--     insertion, `==`, `str`, truth and order of values, exceptions as `Result`
--     (jsonpysql/exceptions.py), and `list.sort`, a stable sort that asks only the `<` of the keys.
--   Storage/SortedDict: the interface of `sortedcontainers.SortedDict`, a third-party package: a
--     record of operations and of the laws that its documentation gives. Tests/Instances fills it.
--   Storage/DocumentStore: jsonpysql/storage/document_store.py. A `.jsonl` file is a list of lines, or
--     nothing where the file is absent; every write appends a line, and `get` and `scan` replay the
--     lines.
--   Storage/IndexManager: jsonpysql/storage/index_manager.py. Keys has the texts of keys, Index one
--     `SortedDict` from key texts to ids, Manager the class over the indexes and files of a collection.
--   Storage/AtomicWrite: `_write_json`, `_read_json` and `compact` of the two files above by their
--     calls of the operating system, any of which may fail and after any of which the process may
--     stop. Elsewhere a file is replaced in one step.
--   Storage/Serialization: jsonpysql/utils/serialization.py, and the writes of documents with values
--     that JSON does not have. Elsewhere field values are those of JSON.
--   Storage/Wal: jsonpysql/storage/wal.py, the entries and the log file of one transaction.
--   Storage/Engine: jsonpysql/storage/engine.py. State has the engine with its directory and the
--     operations on single documents, Collections `create_collection` and `drop_collection`,
--     Transactions `_Transaction` and `_apply_entry`, Startup `_load_manifest` and `_recover_wal`.
--     Shared has the writes of several processes over one directory, in the order of the lock.
--     `CollectionStats`, `IndexSpec` and `Transaction` are from jsonpysql/storage/models.py.
--   Storage/LockManager: jsonpysql/storage/lock_manager.py and the tries of a lock in
--     jsonpysql/utils/platform.py, over a system whose clock and `flock` are parameters.
--   Query/Models, Planner, Rows, Aggregates, Executor, Builder: the files of those names under
--     jsonpysql/query. Planner has what is made of the tree of a lambda, and Planner/Source has
--     `_extract_lambda_source`. Rows are generators: the documents they yield and how they end.
--   Query/IndexedQuery, RangeQuery: queries whose plans use an index, from the predicate to the list.
--   Schema/Fields, Constraints, Collection, Documents, Registry, Functions: the files under
--     jsonpysql/schema (Fields has validator.py too, Documents the `DocumentCollection` of
--     collection.py). Pydantic and dill are third-party packages: records of what the program uses of
--     them, which Tests/Models and Tests/Databases fill.
--   Database: jsonpysql/database.py. Queryable has `_QueryableCollection`, State the rest.
--   Tests: a concrete `SortedDict`, engine, files and queries, and every result applied to them.
--
-- How the parts interact: a write of the engine appends to the document store and tells the index
-- manager; a transaction buffers entries in its log and applies them at commit; the start of the
-- engine applies the logs that are left. A query asks the planner for a plan from its first predicate
-- and runs it over the engine's reads, by index where the plan says so. A schema collection validates a
-- document, checks its unique fields by the engine's lookups and its references by the engine's reads,
-- and then writes. The collection manager keeps the registered collections beside the engine's, and the
-- database hands queries the fields for which the engine has an index.
--
-- A function on a state takes it and returns the changed one; a call that raises returns an error, and
-- the state is as before, except in `commit` and in the registries and the database, whose calls return
-- what they had done. Every loop of the modelled code runs over a list and is structural recursion;
-- only the decimal digits of a number are computed on fuel, the number plus one, which is more than its
-- digits, and the polling for a lock runs on fuel, one more than the gaps between readings of the clock
-- that make up the timeout.
--
-- Not modelled: floats, lists and objects as field values (and with them `AvgAgg`); outside of
-- Storage/AtomicWrite, OS errors other than an absent file; outside of Storage/Engine/Shared, other
-- processes, so that the engine's locks are free; `inspect` and `ast`, so that what they make of a
-- text is a parameter; `QueryPlan.describe`, a text for debugging; locking on Windows; the temporary
-- file of the manifest.
pub mod Prelude
pub mod Python
pub mod Storage
pub mod Query
pub mod Schema
pub mod Database
pub mod Tests
