-- ===== src/Tests/Schemas.antt =====
-- The theorems on unique fields applied to the collection `users`.
use text.Mathlib.Text.{◌==◌ as str_eq}
use jsonpy_sql.Prelude.{◌≡◌, refl, true, false, none, arith, eq_iff}
use jsonpy_sql.Python.Dict as D
use jsonpy_sql.Python.Dict.{string_key}
use jsonpy_sql.Python.Value.{truthy, to_str, field}
use jsonpy_sql.Python.Result.{ok}
use jsonpy_sql.Storage.DocumentStore as Store
use jsonpy_sql.Storage.DocumentStore.{deleted_key, id_key}
use jsonpy_sql.Storage.IndexManager.{str_mem, has_index_for, find_index_for, encode_key}
use jsonpy_sql.Storage.IndexManager as Im
use jsonpy_sql.Storage.Engine as Engine
use jsonpy_sql.Storage.Engine.{get, require, lock}
use jsonpy_sql.Storage.Engine.Indexed.{holdings}
use jsonpy_sql.Schema.Fields.{
  validate, get_unique_fields, get_primary_key_field, get_foreign_keys, marked_fields, declared_key,
  keys_of, get_field_meta, get_fk_meta,
}
use jsonpy_sql.Schema.Constraints.{check_insert, check_children}
use jsonpy_sql.Schema.Collection.{schema_collection, insert, register_keys, extract_or_generate_id}
use jsonpy_sql.Schema.Collection.Unique.{NoClash}
use jsonpy_sql.Schema.Collection.Sound.{IsSound}
use jsonpy_sql.Schema.Collection.Runs.{inserted, Run, stay, after, Run-IsSound}
use jsonpy_sql.Tests.Instances.{entry_list}
use jsonpy_sql.Tests.Collections.{bob, users}
use jsonpy_sql.Tests.Engines.{users-IsReady, with_bob}
use jsonpy_sql.Tests.Indexes.{users-IsIndexed, has_name}
use jsonpy_sql.Tests.Models.{models, people}

names_apart : NoClash "name" (holdings "users" users)
unfolding get require lock Store.get Store.iter_lines Store.get_loop Store.get_step Store.parse
    Store.strip_id D.get D.del D.set truthy to_str
names_apart i j = ground (arith, eq_iff "1" i, eq_iff "1" j, eq_iff i j)

pub users-IsSound : IsSound "users" "name" users
unfolding D.get
users-IsSound = (users-IsReady, users-IsIndexed, has_name, names_apart)

unique_name : str_mem "name" people.unique_fields ≡ true
unfolding schema_collection get_unique_fields marked_fields get_field_meta
unique_name = refl

valid_bob : validate people.model bob ≡ ok bob
unfolding schema_collection validate D.get
valid_bob = refl

live_bob : truthy (field deleted_key bob) ≡ false
unfolding truthy D.get
live_bob = refl

no_second : get "users" "2" users ≡ ok none
unfolding get require lock Store.get Store.iter_lines Store.get_loop Store.get_step Store.parse
    D.get
no_second = refl

bob_inserted : insert "2" bob people users ≡ ok ("2", with_bob)
unfolding insert schema_collection validate get_primary_key_field declared_key get_unique_fields
    marked_fields get_field_meta get_fk_meta get_foreign_keys keys_of extract_or_generate_id
    check_insert check_children Engine.lookup Engine.insert require lock D.get has_index_for
    find_index_for Im.lookup encode_key to_str register_keys
bob_inserted = refl

with_bob-Run : Run people users with_bob
unfolding schema_collection
with_bob-Run =
    after users users with_bob (stay users)
      (inserted "2" "2" bob bob users with_bob valid_bob live_bob no_second bob_inserted)

name_is_no_id : str_eq id_key "name" ≡ false
name_is_no_id = refl

Run-IsSound_example : IsSound people.name "name" with_bob
unfolding schema_collection
Run-IsSound_example =
    Run-IsSound people "name" users with_bob unique_name name_is_no_id users-IsSound with_bob-Run
