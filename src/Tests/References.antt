-- ===== src/Tests/References.antt =====
-- The theorems on foreign keys applied to the collections `users` and `orders`.
use text.Mathlib.Text.{◌==◌ as str_eq}
use jsonpy_sql.Prelude.{◌≡◌, refl, false, none, some}
use jsonpy_sql.Python.Dict as D
use jsonpy_sql.Python.Dict.{string_key}
use jsonpy_sql.Python.Value.{truthy, to_str, field, is_none}
use jsonpy_sql.Python.Result.{ok}
use jsonpy_sql.Storage.SortedDict.{Postings}
use jsonpy_sql.Storage.DocumentStore as Store
use jsonpy_sql.Storage.DocumentStore.{deleted_key, id_key}
use jsonpy_sql.Storage.IndexManager as Im
use jsonpy_sql.Storage.Engine as Engine
use jsonpy_sql.Storage.Engine.{Engine, get, require, lock, write_back, file_of, with_id}
use jsonpy_sql.Storage.Engine.Documents.{IsReady}
use jsonpy_sql.Storage.Engine.Indexed.{holdings}
use jsonpy_sql.Schema.Fields.{
  validate, get_unique_fields, get_primary_key_field, get_foreign_keys, marked_fields, declared_key,
  keys_of, get_field_meta, get_fk_meta,
}
use jsonpy_sql.Schema.Constraints.{
  check_insert, check_children, check_child_insert, assert_parent_exists,
}
use jsonpy_sql.Schema.Collection.{
  schema_collection, insert, delete, register_fk_reverse, extract_or_generate_id,
}
use jsonpy_sql.Schema.Collection.Runs.{Run, inserted, stay, after}
use jsonpy_sql.Schema.Collection.References.{refers}
use jsonpy_sql.Schema.Collection.ReferenceRuns.{IsJoined, Run-IsJoined}
use jsonpy_sql.Schema.Collection.Deletes.{delete-dangling}
use jsonpy_sql.Schema.Registry.{build_fk_checkers, checkers_for}
use jsonpy_sql.Tests.Instances.{entry_list}
use jsonpy_sql.Tests.Collections.{ann_stored}
use jsonpy_sql.Tests.Models.{
  models, people, orders, of_user, order_of_ann, no_orders, shop, busy_shop,
}

-- The shop after the order was inserted under the id `o1`
abbrev order_added : Engine Postings
order_added = register_fk_reverse orders "o1" order_of_ann (
    write_back "orders" (Store.append "o1" order_of_ann (file_of "orders" shop))
      (Im.on_insert "o1" (with_id "o1" order_of_ann) no_orders) shop)

checked_user : D.get "user" orders.fk_checkers ≡ some of_user
unfolding schema_collection build_fk_checkers checkers_for get_foreign_keys keys_of get_fk_meta
    get_primary_key_field declared_key get_field_meta D.get
checked_user = refl

shop-IsJoined : IsJoined of_user "orders" shop
unfolding get require lock Store.get Store.iter_lines Store.get_loop D.get
shop-IsJoined = (λ j. (none, refl), λ j. refl)

valid_order : validate orders.model order_of_ann ≡ ok order_of_ann
unfolding schema_collection validate D.get
valid_order = refl

live_order : truthy (field deleted_key order_of_ann) ≡ false
unfolding truthy D.get
live_order = refl

no_order : get orders.name "o1" shop ≡ ok none
unfolding schema_collection get require lock Store.get Store.iter_lines Store.get_loop D.get
no_order = refl

order_inserted : insert "o1" order_of_ann orders shop ≡ ok ("o1", order_added)
unfolding insert schema_collection build_fk_checkers checkers_for validate get_primary_key_field
    declared_key get_unique_fields marked_fields get_field_meta get_fk_meta get_foreign_keys keys_of
    extract_or_generate_id check_insert check_children check_child_insert assert_parent_exists
    Engine.insert get require lock Store.get Store.iter_lines Store.get_loop Store.get_step
    Store.parse Store.strip_id D.get D.del truthy to_str
order_inserted = refl

order-Run : Run orders shop order_added
order-Run = after shop shop order_added (stay shop) (
    inserted "o1" "o1" order_of_ann order_of_ann shop order_added valid_order live_order no_order
      order_inserted)

user_is_no_id : str_eq id_key of_user.fk_field ≡ false
user_is_no_id = refl

not_users : str_eq orders.name of_user.parent_collection ≡ false
unfolding schema_collection
not_users = refl

Run-IsJoined_example : IsJoined of_user orders.name order_added
unfolding schema_collection
Run-IsJoined_example =
    Run-IsJoined orders "user" of_user shop order_added checked_user user_is_no_id not_users
      shop-IsJoined order-Run

busy-IsReady : IsReady "users" busy_shop
unfolding get require lock Store.get Store.iter_lines Store.get_loop Store.parse D.get
busy-IsReady j = (Store.get_step j none ann_stored, refl)

order_held : holdings "orders" busy_shop "o1" ≡ some (with_id "o1" order_of_ann)
unfolding get require lock Store.get Store.iter_lines Store.get_loop Store.get_step Store.parse
    Store.strip_id D.get D.del D.set truthy
order_held = refl

has_user : is_none (field of_user.fk_field (with_id "o1" order_of_ann)) ≡ false
unfolding D.get D.set
has_user = refl

of_ann : to_str (field of_user.fk_field (with_id "o1" order_of_ann)) ≡ "1"
unfolding D.get D.set to_str
of_ann = refl

not_orders : str_eq people.name "orders" ≡ false
unfolding schema_collection
not_orders = refl

to_users : of_user.parent_collection ≡ people.name
unfolding schema_collection
to_users = refl

delete-dangling_example :
    (e' : Engine Postings) × (delete "1" people busy_shop ≡ ok e')
    × (holdings "orders" e' "o1" ≡ some (with_id "o1" order_of_ann))
    × (refers of_user e' (some (with_id "o1" order_of_ann)) ≡ false)
unfolding schema_collection
delete-dangling_example =
    delete-dangling people of_user "orders" "1" "o1" (with_id "o1" order_of_ann) busy_shop
      not_orders to_users busy-IsReady order_held has_user of_ann
