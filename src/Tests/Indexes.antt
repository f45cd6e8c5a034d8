-- ===== src/Tests/Indexes.antt =====
-- The theorems on indexes applied to the index by name of the collection `users`.
use jsonpy_sql.Prelude.{◌≡◌, refl, true, false, none, some, [], ◌∷◌, if◌then◌else◌, arith, eq_iff}
use jsonpy_sql.Python.Dict as D
use jsonpy_sql.Python.Dict.{string_key}
use jsonpy_sql.Python.Value.{str, truthy, to_str, field}
use jsonpy_sql.Python.Result.{ok}
use jsonpy_sql.Storage.DocumentStore as Store
use jsonpy_sql.Storage.DocumentStore.{deleted_key}
use jsonpy_sql.Storage.IndexManager.{
  count, has_index_for, range_scan, make_key, encode_key, find_index_for, lookup as lookup_index,
}
use jsonpy_sql.Storage.IndexManager.Contents.{IsExact}
use jsonpy_sql.Storage.IndexManager.Queries.{text_between, range_scan-IsExact}
use jsonpy_sql.Storage.Engine.{get, require, lock, lookup}
use jsonpy_sql.Storage.Engine.Indexed.{IsIndexed, holdings, update-IsIndexed}
use jsonpy_sql.Tests.Instances.{entry_list}
use jsonpy_sql.Tests.Collections.{bob, names, users}
use jsonpy_sql.Tests.Engines.{users-IsReady, with_new_ann, updated}

pub names-IsExact : IsExact (holdings "users" users) names.indexes
unfolding get require lock Store.get Store.iter_lines Store.get_loop Store.get_step Store.parse
    Store.strip_id D.get D.del D.set truthy encode_key make_key to_str
names-IsExact = (λ j k. ground (arith, eq_iff "1" j, eq_iff "Ann" k), tt)

pub registered : D.get "users" users.managers ≡ some names
unfolding D.get
registered = refl

abbrev pub users-IsIndexed : IsIndexed "users" users
users-IsIndexed = (names, registered, names-IsExact)

no_bob : get "users" "2" users ≡ ok none
unfolding get require lock Store.get Store.iter_lines Store.get_loop Store.get_step Store.parse
    D.get
no_bob = refl

live : truthy (field deleted_key bob) ≡ false
unfolding truthy D.get
live = refl

pub has_name : has_index_for "name" names ≡ true
unfolding has_index_for find_index_for
has_name = refl

pub found_ann : lookup "users" "name" (str "Ann") users ≡ ok ("1" ∷ [])
unfolding lookup require D.get has_index_for find_index_for lookup_index encode_key to_str
found_ann = refl

update-IsIndexed_example : IsIndexed "users" with_new_ann
update-IsIndexed_example =
    update-IsIndexed "users" "1" bob users with_new_ann users-IsReady live users-IsIndexed updated

range_scan-IsExact_example : count "1" (range_scan "name" (str "A") (str "B") names) ≡ (
    if text_between "name" (to_str (str "A")) (to_str (str "B")) (holdings "users" users "1")
    then 1
    else 0)
range_scan-IsExact_example =
    range_scan-IsExact "name" (str "A") (str "B") (holdings "users" users) names names-IsExact
      has_name "1"
