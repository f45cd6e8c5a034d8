-- ===== src/Tests/Restarts.antt =====
-- A restart over the directory of the collection `users`, with the index files that were saved.
use jsonpy_sql.Prelude.{String, ◌≡◌, refl, true, some, [], ◌∷◌, arith, eq_iff, inl, all_of}
use jsonpy_sql.Python.Dict as D
use jsonpy_sql.Python.Dict.{Dict, string_key}
use jsonpy_sql.Python.Value.{truthy, to_str}
use jsonpy_sql.Python.Result.{ok}
use jsonpy_sql.Storage.SortedDict.{Postings}
use jsonpy_sql.Storage.DocumentStore as Store
use jsonpy_sql.Storage.IndexManager as Im
use jsonpy_sql.Storage.IndexManager.{IndexFiles, make_key, encode_key}
use jsonpy_sql.Storage.IndexManager.Contents.{IsExact}
use jsonpy_sql.Storage.Engine.{
  Engine, get, scan, require, lock, open_engine, load_manifest, open_all, open_manager, is_missing,
  recover_wal, recover_files, files_of,
}
use jsonpy_sql.Storage.Engine.Indexed.{IsIndexed, holdings}
use jsonpy_sql.Storage.Engine.Compacted.{has_text_id}
use jsonpy_sql.Storage.Engine.Restart.{directory_with, open_engine-IsIndexed}
use jsonpy_sql.Tests.Instances.{entry_list}
use jsonpy_sql.Tests.Collections.{by_name, ann_stored, names, users}

abbrev pub saved_users : Engine Postings
saved_users = record users { managers = ("users", Im.save names) ∷ [] }

abbrev saved_files : Dict String IndexFiles
saved_files = ("users", (Im.save names).files) ∷ []

abbrev restarted : Engine Postings
restarted = record users {
  managers = ("users", Im.load (Im.init (by_name ∷ []) (Im.save names).files)) ∷ [];
}

pub saved_users-IsExact : IsExact (holdings "users" saved_users) names.indexes
unfolding get require lock Store.get Store.iter_lines Store.get_loop Store.get_step Store.parse
    Store.strip_id D.get D.del D.set truthy encode_key make_key to_str
saved_users-IsExact = (λ j k. ground (arith, eq_iff "1" j, eq_iff "Ann" k), tt)

saved_users_scanned : scan "users" saved_users ≡ ok (ann_stored ∷ [])
unfolding scan require lock Store.scan Store.iter_lines Store.scan_loop Store.scan_step
    Store.live_docs Store.parse D.get D.set truthy
saved_users_scanned = refl

stored_text_ids : all_of has_text_id (ann_stored ∷ []) ≡ true
unfolding D.get
stored_text_ids = refl

restart : open_engine (directory_with saved_files saved_users) ≡ ok restarted
unfolding open_engine load_manifest open_all open_manager is_missing recover_wal recover_files
    Im.save Im.write_idxs D.get D.set
restart = refl

pub users_saved : D.get "users" saved_users.managers ≡ some (Im.save names)
unfolding D.get
users_saved = refl

pub users_specified : D.get "users" saved_users.specs ≡ some (by_name ∷ [])
unfolding D.get
users_specified = refl

files_there : files_of "users" (directory_with saved_files saved_users) ≡ (Im.save names).files
unfolding D.get
files_there = refl

open_engine-IsIndexed_example : IsIndexed "users" restarted
open_engine-IsIndexed_example =
    open_engine-IsIndexed "users" (ann_stored ∷ []) names saved_files saved_users restarted refl
      refl users_saved users_specified (tt, tt) saved_users_scanned stored_text_ids
      saved_users-IsExact (inl files_there) restart
