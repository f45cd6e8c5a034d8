-- ===== src/Tests/Managers.antt =====
-- The theorems on the registry of collections applied to a manager over `users`.
use jsonpy_sql.Prelude.{◌≡◌, refl, String, true, false, not, ◌&&◌, none, List, [], ◌∷◌}
use jsonpy_sql.Python.Dict as D
use jsonpy_sql.Python.Dict.{string_key}
use jsonpy_sql.Python.Result.{ok}
use jsonpy_sql.Storage.SortedDict.{Postings}
use jsonpy_sql.Storage.DocumentStore as Store
use jsonpy_sql.Storage.IndexManager.{str_mem}
use jsonpy_sql.Storage.Engine as Engine
use jsonpy_sql.Storage.Engine.{create_new, save_manifest}
use jsonpy_sql.Storage.Engine.Indexed.{holdings}
use jsonpy_sql.Schema.Fields.{get_unique_fields, marked_fields, get_field_meta}
use jsonpy_sql.Schema.Collection.{schema_collection}
use jsonpy_sql.Schema.Collection.Sound.{IsSound}
use jsonpy_sql.Schema.Registry.{
  CollectionManager, schema_backed, collection_manager, has_collection, get_collection,
  ensure_engine, build_fk_checkers, register_schema_collection,
}
use jsonpy_sql.Schema.Registry.Registration.{register-IsSound}
use jsonpy_sql.Schema.Registry.Backed.{IsBacked}
use jsonpy_sql.Schema.Registry.Sessions.{
  Operation, register_schema, register_document, drop, perform_all, perform_all-IsBacked,
}
use jsonpy_sql.Tests.Instances.{entry_list}
use jsonpy_sql.Tests.Collections.{users}
use jsonpy_sql.Tests.Models.{Model, models, user}

abbrev manager : CollectionManager Postings Model
manager = collection_manager users

abbrev with_people : CollectionManager Postings Model
with_people = (register_schema_collection "people" user false manager).1

no_people : (D.contains "people" manager.engine.managers && not false) ≡ false
unfolding collection_manager D.get
no_people = refl

unique_name : str_mem "name" (get_unique_fields user) ≡ true
unfolding get_unique_fields marked_fields get_field_meta
unique_name = refl

people_registered :
    register_schema_collection "people" user false manager
    ≡ (ok (schema_collection "people" user (build_fk_checkers "people" user)), with_people)
unfolding register_schema_collection ensure_engine collection_manager has_collection
    Engine.create_collection create_new save_manifest Store.create D.get
people_registered = refl

register-IsSound_example :
    IsSound "people" "name" with_people.engine
    × ((j : String) → holdings "people" with_people.engine j ≡ none)
    × (get_collection "people" with_people
        ≡ ok (schema_backed (schema_collection "people" user (build_fk_checkers "people" user))))
    × (schema_collection "people" user (build_fk_checkers "people" user)
        ≡ schema_collection "people" user (build_fk_checkers "people" user))
register-IsSound_example =
    register-IsSound "people" "name" user false
      (schema_collection "people" user (build_fk_checkers "people" user)) manager with_people
      no_people unique_name people_registered

manager-IsBacked : IsBacked manager
unfolding collection_manager has_collection D.get
manager-IsBacked n = refl

abbrev calls : List (Operation Model)
calls =
    register_schema "people" user false
    ∷ register_document "people" [] false
    ∷ drop "people"
    ∷ drop "people"
    ∷ register_document "users" ("age" ∷ []) true
    ∷ []

perform_all-IsBacked_example : IsBacked (perform_all calls manager)
perform_all-IsBacked_example = perform_all-IsBacked calls manager manager-IsBacked
