-- ===== src/Tests/Registries.antt =====
-- The theorems on whole collections applied to the engine with `users`.
use jsonpy_sql.Prelude.{all_of, true, ◌≡◌, refl, false, some, [], ◌∷◌}
use jsonpy_sql.Python.Dict as D
use jsonpy_sql.Python.Dict.{string_key}
use jsonpy_sql.Python.Value.{truthy}
use jsonpy_sql.Python.Result.{ok}
use jsonpy_sql.Storage.SortedDict.{Postings}
use jsonpy_sql.Storage.DocumentStore as Store
use jsonpy_sql.Storage.IndexManager as Im
use jsonpy_sql.Storage.Engine.{
  Engine, scan, require, lock, compact, write_back, file_of, put_file, save_manifest, no_files,
  drop_collection, create_new, create_collection, open_engine, load_manifest, open_all,
  open_manager, is_missing, recover_wal, recover_files,
}
use jsonpy_sql.Storage.Engine.Indexed.{IsIndexed}
use jsonpy_sql.Storage.Engine.Compacted.{has_text_id, compact-IsIndexed}
use jsonpy_sql.Storage.Engine.Reopening.{directory_of}
use jsonpy_sql.Query.Aggregates.{tuple_key}
use jsonpy_sql.Tests.Instances.{entry_list}
use jsonpy_sql.Tests.Collections.{by_name, ann_stored, names, users}

abbrev with_orders : Engine Postings
with_orders = save_manifest (record users {
  jsonl = put_file "orders" (some []) users.jsonl;
  managers = D.set "orders" (Im.save (Im.init (by_name ∷ []) no_files)) users.managers;
  specs = D.set "orders" (by_name ∷ []) users.specs;
})

orders_created : create_collection "orders" (by_name ∷ []) false users ≡ ok with_orders
unfolding create_collection create_new Store.create D.get
orders_created = refl

abbrev no_users : Engine Postings
no_users = save_manifest (record users {
  jsonl = put_file "users" (Store.destroy (file_of "users" users)) users.jsonl;
  managers = D.del "users" users.managers;
  specs = D.del "users" users.specs;
})

users_dropped : drop_collection "users" users ≡ ok no_users
unfolding drop_collection require D.get
users_dropped = refl

abbrev compacted_users : Engine Postings
compacted_users =
    write_back "users" (Store.compact (ann_stored ∷ []) (file_of "users" users))
      (Im.save (Im.rebuild (ann_stored ∷ []) names)) users

users_compacted : compact "users" users ≡ ok compacted_users
unfolding compact require lock Store.scan Store.iter_lines Store.scan_loop Store.scan_step
    Store.live_docs Store.parse D.get D.set truthy
users_compacted = refl

users_scanned : scan "users" users ≡ ok (ann_stored ∷ [])
unfolding scan require lock Store.scan Store.iter_lines Store.scan_loop Store.scan_step
    Store.live_docs Store.parse D.get D.set truthy
users_scanned = refl

users_have_text_ids : all_of has_text_id (ann_stored ∷ []) ≡ true
unfolding D.get
users_have_text_ids = refl

compact-IsIndexed_example : IsIndexed "users" compacted_users
compact-IsIndexed_example =
    compact-IsIndexed "users" (ann_stored ∷ []) users compacted_users users_scanned
      users_have_text_ids users_compacted

abbrev pub reopened : Engine Postings
reopened = record users {
  managers =
      (
        "users",
        Im.save (Im.rebuild (ann_stored ∷ []) (Im.load (Im.init (by_name ∷ []) names.files))),
      )
      ∷ [];
}

pub users-reopened : open_engine (directory_of users) ≡ ok reopened
unfolding open_engine load_manifest open_all open_manager is_missing recover_wal recover_files
    Store.scan Store.iter_lines Store.scan_loop Store.scan_step Store.live_docs Store.parse D.get
    D.set truthy
users-reopened = refl

pub in_step : D.contains "users" users.managers ≡ D.contains "users" users.specs
unfolding D.get
in_step = refl
