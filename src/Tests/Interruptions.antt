-- ===== src/Tests/Interruptions.antt =====
-- An insert into the collection `users` that stops before the index by name is saved.
use text.Mathlib.Text.{◌==◌ as str_eq}
use jsonpy_sql.Prelude.{String, ◌≡◌, refl, subst, true, false, none, some, List, arith, eq_iff}
use jsonpy_sql.Python.Dict as D
use jsonpy_sql.Python.Dict.{string_key}
use jsonpy_sql.Python.Value.{str, truthy, field}
use jsonpy_sql.Python.Result.{ok}
use jsonpy_sql.Storage.SortedDict.{Postings}
use jsonpy_sql.Storage.DocumentStore as Store
use jsonpy_sql.Storage.DocumentStore.{deleted_key}
use jsonpy_sql.Storage.IndexManager as Im
use jsonpy_sql.Storage.IndexManager.{count}
use jsonpy_sql.Storage.Engine.{
  Engine, get, insert, lookup, require, lock, with_id, file_of, write_back, open_engine,
}
use jsonpy_sql.Storage.Engine.Documents.{IsReady}
use jsonpy_sql.Storage.Engine.OneLog.{AllReady}
use jsonpy_sql.Storage.Engine.Interrupted.{half_written, insert_stops}
use jsonpy_sql.Tests.Instances.{entry_list}
use jsonpy_sql.Tests.Collections.{bob, names}
use jsonpy_sql.Tests.Engines.{users-IsReady}
use jsonpy_sql.Tests.Indexes.{has_name}
use jsonpy_sql.Tests.Restarts.{saved_users, saved_users-IsExact, users_saved, users_specified}

bob_live : truthy (field deleted_key bob) ≡ false
unfolding D.get truthy
bob_live = refl

abbrev with_bob : Engine Postings
with_bob =
    write_back "users" (Store.append "2" bob (file_of "users" saved_users))
      (Im.on_insert "2" (with_id "2" bob) (Im.save names)) saved_users

bob_inserted : insert "users" "2" bob saved_users ≡ ok with_bob
unfolding insert require lock D.get
bob_inserted = refl

no_bob_yet : get "users" "2" saved_users ≡ ok none
unfolding get require lock Store.get Store.iter_lines Store.get_loop Store.get_step Store.parse
    D.get
no_bob_yet = refl

saved_users-IsReady : IsReady "users" saved_users
unfolding get require lock Im.save Im.write_idxs D.set D.get
saved_users-IsReady = users-IsReady

saved_users-AllReady : AllReady saved_users.specs saved_users
unfolding D.get
saved_users-AllReady c t =
    let same : str_eq "users" c ≡ true = ground (arith, t) in
    subst (λ x. IsReady x saved_users) ((eq_iff "users" c).0 same) saved_users-IsReady

insert_stops_example :
    (e' : Engine Postings) × (open_engine (half_written saved_users with_bob) ≡ ok e')
    × (get "users" "2" e' ≡ ok (some (Store.strip_id bob)))
    × (ids : List String) × (lookup "users" "name" (str "Bob") e' ≡ ok ids)
    × (count "2" ids ≡ 0)
insert_stops_example =
    insert_stops "users" "2" "name" (str "Bob") bob names saved_users with_bob refl refl
      saved_users-AllReady users_saved users_specified (tt, tt) saved_users-IsExact has_name
      no_bob_yet bob_live bob_inserted
