-- ===== src/Tests/Engines.antt =====
-- The engine's theorems applied to the collection `users`.
use jsonpy_sql.Prelude.{◌≡◌, refl, String, none, some, [], ◌∷◌}
use jsonpy_sql.Python.Dict as D
use jsonpy_sql.Python.Value.{truthy}
use jsonpy_sql.Python.Result.{ok}
use jsonpy_sql.Storage.SortedDict.{Postings}
use jsonpy_sql.Storage.DocumentStore as Store
use jsonpy_sql.Storage.IndexManager as Im
use jsonpy_sql.Storage.Wal.Dedup.{last_for}
use jsonpy_sql.Storage.Engine.{
  Engine, get, insert, update, delete, require, lock, write_back, with_id, with_id?, commit,
  rollback, wal_of, file_of,
}
use jsonpy_sql.Storage.Engine.Documents.{IsReady}
use jsonpy_sql.Storage.Engine.Entries.{decide}
use jsonpy_sql.Storage.Engine.Lifecycle.{buffer_all, commit-buffer_all, rollback-buffer_all}
use jsonpy_sql.Tests.Instances.{entry_list}
use jsonpy_sql.Tests.Collections.{
  ann, bob, ann_stored, names, users, add_bob, rename_ann, remove_bob,
}

pub users-IsReady : IsReady "users" users
unfolding get require lock Store.get Store.iter_lines Store.get_loop Store.parse D.get
users-IsReady j = (Store.get_step j none ann_stored, refl)

pub no_log : wal_of "t1.wal" users ≡ none
unfolding D.get
no_log = refl

commit-buffer_all_example :
    (e' : Engine Postings) × (commit "t1.wal"
        (buffer_all "t1.wal" (add_bob ∷ rename_ann ∷ remove_bob ∷ []) users)
      ≡ (ok tt, e'))
    × ((c j : String)
        → get c j e'
          ≡ decide (last_for c j (add_bob ∷ rename_ann ∷ remove_bob ∷ [])) (get c j users))
    × (wal_of "t1.wal" e' ≡ none)
commit-buffer_all_example =
    commit-buffer_all "t1.wal" add_bob (rename_ann ∷ remove_bob ∷ []) users no_log
      (users-IsReady, (users-IsReady, (users-IsReady, tt)))

rollback-buffer_all_example :
    ((c j : String)
      → get c j (rollback "t1.wal" (buffer_all "t1.wal" (add_bob ∷ rename_ann ∷ []) users))
        ≡ get c j users)
    × (wal_of "t1.wal" (rollback "t1.wal" (buffer_all "t1.wal" (add_bob ∷ rename_ann ∷ []) users))
        ≡ none)
rollback-buffer_all_example = rollback-buffer_all "t1.wal" (add_bob ∷ rename_ann ∷ []) users

abbrev pub with_bob : Engine Postings
with_bob =
    write_back "users" (Store.append "2" bob (file_of "users" users))
      (Im.on_insert "2" (with_id "2" bob) names) users

abbrev pub with_new_ann : Engine Postings
with_new_ann =
    write_back "users" (Store.append "1" bob (file_of "users" users))
      (Im.on_update "1" (with_id? "1" (some ann)) (with_id "1" bob) names) users

abbrev pub without_ann : Engine Postings
without_ann =
    write_back "users" (Store.tombstone "1" (file_of "users" users))
      (Im.on_delete "1" (with_id? "1" (some ann)) names) users

pub inserted : insert "users" "2" bob users ≡ ok with_bob
unfolding insert require lock D.get
inserted = refl

pub updated : update "users" "1" bob users ≡ ok with_new_ann
unfolding update require lock D.get Store.get Store.iter_lines Store.get_loop Store.get_step
    Store.parse Store.strip_id D.del truthy
updated = refl

pub deleted : delete "users" "1" users ≡ ok without_ann
unfolding delete require lock D.get Store.get Store.iter_lines Store.get_loop Store.get_step
    Store.parse Store.strip_id D.del truthy
deleted = refl
