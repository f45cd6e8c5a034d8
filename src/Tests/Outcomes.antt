-- ===== src/Tests/Outcomes.antt =====
-- The theorems on what `insert` takes applied to the collection `users`.
use jsonpy_sql.Prelude.{◌≡◌, refl, true, false, some, arith, eq_iff, All, if◌then◌else◌}
use jsonpy_sql.Python.Dict as D
use jsonpy_sql.Python.Dict.{string_key}
use jsonpy_sql.Python.Value.{truthy, to_str, field, is_none}
use jsonpy_sql.Python.Result.{ok, err, unique_constraint_error}
use jsonpy_sql.Storage.SortedDict.{Postings}
use jsonpy_sql.Storage.DocumentStore as Store
use text.Mathlib.Text.{◌==◌ as str_eq}
use jsonpy_sql.Storage.DocumentStore.{deleted_key}
use jsonpy_sql.Storage.IndexManager.{str_mem, has_index_for, find_index_for}
use jsonpy_sql.Storage.IndexManager.Queries.{has_text}
use jsonpy_sql.Storage.Engine.{Engine, get, require, lock}
use jsonpy_sql.Storage.Engine.Indexed.{holdings}
use jsonpy_sql.Storage.Engine.Declared.{has_index}
use jsonpy_sql.Schema.Fields.{validate, get_unique_fields, marked_fields, get_field_meta}
use jsonpy_sql.Schema.Collection.{schema_collection, insert, extract_or_generate_id}
use jsonpy_sql.Schema.Collection.References.{refers}
use jsonpy_sql.Schema.Collection.Outcomes.{IsUnused, insert-returns, insert-refuses}
use jsonpy_sql.Tests.Instances.{entry_list}
use jsonpy_sql.Tests.Collections.{ann, bob, users}
use jsonpy_sql.Tests.Engines.{users-IsReady}
use jsonpy_sql.Tests.Indexes.{users-IsIndexed}
use jsonpy_sql.Tests.Models.{models, people}

valid_bob : validate people.model bob ≡ ok bob
unfolding schema_collection validate D.get
valid_bob = refl

valid_ann : validate people.model ann ≡ ok ann
unfolding schema_collection validate D.get
valid_ann = refl

has_name_index : has_index "users" "name" users ≡ true
unfolding has_index_for find_index_for D.get
has_name_index = refl

bob_name-IsUnused : IsUnused "name" bob "users" users
unfolding get require lock Store.get Store.iter_lines Store.get_loop Store.get_step Store.parse
    Store.strip_id D.get D.del D.set truthy to_str
bob_name-IsUnused j = ground (arith, eq_iff "1" j)

bob-IsUnused :
    All
      (λ f. (has_index people.name f users ≡ true) × IsUnused f bob people.name users)
      people.unique_fields
unfolding schema_collection get_unique_fields marked_fields get_field_meta
bob-IsUnused = ((has_name_index, bob_name-IsUnused), tt)

no_keys : All (λ x. refers x.1 users (some bob) ≡ true) people.fk_checkers
unfolding schema_collection
no_keys = tt

bob_live : truthy (field deleted_key bob) ≡ false
unfolding D.get truthy
bob_live = refl

insert-returns_example :
    (e' : Engine Postings) × (insert "2" bob people users
      ≡ ok (extract_or_generate_id people.pk_field "2" bob, e'))
    × (get people.name "2" e' ≡ (
        if str_eq (extract_or_generate_id people.pk_field "2" bob) "2"
        then ok (some (Store.strip_id bob))
        else get people.name "2" users))
unfolding schema_collection
insert-returns_example =
    insert-returns people "2" "2" bob bob users users-IsReady users-IsIndexed valid_bob bob-IsUnused
      no_keys bob_live

name_unique : str_mem "name" people.unique_fields ≡ true
unfolding schema_collection get_unique_fields marked_fields get_field_meta
name_unique = refl

ann_named : is_none (field "name" ann) ≡ false
unfolding D.get
ann_named = refl

ann_taken : has_text "name" (to_str (field "name" ann)) (holdings "users" users "1") ≡ true
unfolding get require lock Store.get Store.iter_lines Store.get_loop Store.get_step Store.parse
    Store.strip_id D.get D.del D.set truthy to_str
ann_taken = refl

insert-refuses_example : insert "2" ann people users ≡ err unique_constraint_error
unfolding schema_collection
insert-refuses_example =
    insert-refuses people "name" "2" "1" ann ann users users-IsReady users-IsIndexed has_name_index
      name_unique valid_ann ann_named ann_taken
