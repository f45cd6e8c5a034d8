-- ===== src/Tests/Databases.antt =====
-- The theorems on the database and on the registry of functions, over `users`.
use jsonpy_sql.Prelude.{
  ◌≡◌, refl, sym, String, Bool, true, false, Option, none, some, List, [], ◌∷◌, All, if◌then◌else◌,
}
use jsonpy_sql.Python.Dict as D
use jsonpy_sql.Python.Dict.{string_key}
use jsonpy_sql.Python.Result.{ok, err, function_error}
use jsonpy_sql.Storage.SortedDict.{Postings}
use jsonpy_sql.Storage.Engine.{get}
use jsonpy_sql.Storage.Engine.Reopening.{directory_of}
use jsonpy_sql.Schema.Functions.{
  or_empty, Saved, Dill, FunctionRegistry, function_registry, saved, save, register_function, load,
}
use jsonpy_sql.Schema.Functions.Persistence.{
  Registration, function, procedure, register, replaces, register_all, register_all_blocked,
}
use jsonpy_sql.Schema.Registry.{collection_manager}
use jsonpy_sql.Database.{Database, engine_of, open_database, register_collection, compact}
use jsonpy_sql.Database.Access.{get-reopened}
use jsonpy_sql.Database.Compaction.{get-compact_database}
use jsonpy_sql.Tests.Instances.{entry_list}
use jsonpy_sql.Tests.Collections.{users}
use jsonpy_sql.Tests.Registries.{reopened, users-reopened, in_step}
use jsonpy_sql.Tests.Models.{Model, models, user}

-- Callables are their names here, and one of them cannot be dumped.
abbrev dump : Saved String → Option (Saved String)
dump s = if D.contains "lambda" (or_empty s.functions) then none else some s

load-dump_one :
    (b : Bool) (entry s : Saved String)
    → (if b then none else some entry) ≡ some s
    → some s ≡ some entry
load-dump_one true entry s h = absurd (cc)
load-dump_one false entry s h = sym h

load-dump_names : (entry s : Saved String) → dump entry ≡ some s → some s ≡ some entry
load-dump_names entry s h = load-dump_one (D.contains "lambda" (or_empty entry.functions)) entry s h

instance abbrev names : Dill String (Saved String)
names = record { dump = dump; load = λ s. some s; load-dump = load-dump_names; name_of = λ fn. fn }

abbrev no_functions : FunctionRegistry String (Saved String)
no_functions = function_registry none

abbrev with_area : FunctionRegistry String (Saved String)
with_area = (register (function "area") no_functions).1

area_registered : register (function "area") no_functions ≡ (ok "area", with_area)
unfolding register_function save function_registry D.get D.set
area_registered = refl

undumped_lambda :
    (t : FunctionRegistry String (Saved String))
    → D.get "lambda" t.functions ≡ some "lambda"
    → dump (saved t) ≡ none
unfolding D.get
undumped_lambda t h = rw (h) refl

abbrev two_more : List (Registration String)
two_more = procedure "report" ∷ function "volume" ∷ []

none_replaced : All (λ g. replaces names.name_of g (function "lambda") ≡ false) two_more
none_replaced = (refl, (refl, tt))

register_all_blocked_example :
    ((register_all (function "lambda" ∷ two_more) with_area).0
      ≡ err function_error ∷ err function_error ∷ err function_error ∷ [])
    × ((register_all (function "lambda" ∷ two_more) with_area).1.file ≡ with_area.file)
    × (load (function_registry (register_all (function "lambda" ∷ two_more) with_area).1.file)
        ≡ (ok tt, with_area))
register_all_blocked_example =
    register_all_blocked (function "area") (function "lambda") two_more "area" no_functions
      with_area area_registered undumped_lambda none_replaced

abbrev db : Database Postings Model String (Saved String)
db = record { manager = collection_manager reopened; fn_registry = no_functions }

db_opened : open_database (directory_of users) none ≡ ok db
unfolding open_database load function_registry
db_opened = rw users-reopened refl

users_there : D.contains "users" users.specs ≡ true
unfolding D.get
users_there = refl

get-reopened_example :
    ((register_collection "users" (some user) none false db).0 ≡ ok tt)
    × (get "users" "1" (engine_of (register_collection "users" (some user) none false db).1)
        ≡ get "users" "1" users)
get-reopened_example =
    get-reopened "users" "users" "1" (some user) none none users db refl refl users_there in_step
      refl db_opened

get-compact_database_example :
    get "users" "1" (engine_of (compact (some "users") db).1) ≡ get "users" "1" (engine_of db)
get-compact_database_example = get-compact_database (some "users") db "users" "1"
