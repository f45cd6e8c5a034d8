-- ===== src/Tests/Processes.antt =====
-- Two processes over the directory of `users`.
use jsonpy_sql.Prelude.{if◌then◌else◌, String, ℕ, ◌≡◌, refl, List, [], ◌∷◌}
use jsonpy_sql.Python.Dict.{string_key}
use jsonpy_sql.Python.Value.{str, to_str}
use jsonpy_sql.Python.Result.{ok}
use jsonpy_sql.Storage.IndexManager.{count}
use jsonpy_sql.Storage.IndexManager.Queries.{has_text}
use jsonpy_sql.Storage.Engine.Indexed.{holdings}
use jsonpy_sql.Storage.SortedDict.{Postings}
use jsonpy_sql.Storage.Engine.{get, lookup}
use jsonpy_sql.Storage.Engine.Shared.{
  Write, inserting, deleting, after_writes, World, view, perform_all,
}
use jsonpy_sql.Storage.Engine.Shared.Reads.{get-perform_all}
use jsonpy_sql.Storage.Engine.Shared.Stale.{stale-perform_all}
use jsonpy_sql.Tests.Instances.{entry_list}
use jsonpy_sql.Tests.Collections.{bob, users}
use jsonpy_sql.Tests.Engines.{users-IsReady}
use jsonpy_sql.Tests.Indexes.{users-IsIndexed, has_name}

abbrev world : World Postings
world = record { jsonl = users.jsonl; sessions = λ p. users }

abbrev writes : List (ℕ × Write)
writes = (0, inserting "2" bob) ∷ (1, deleting "1") ∷ (0, inserting "3" bob) ∷ []

get-perform_all_example :
    get "users" "1" (view 2 (perform_all "users" writes world))
    ≡ after_writes writes "1" (get "users" "1" (view 2 world))
get-perform_all_example = get-perform_all "users" "1" writes world 2 (λ p. users-IsReady)

stale-perform_all_example :
    (get "users" "1" (view 2 (perform_all "users" writes world))
      ≡ after_writes writes "1" (get "users" "1" (view 2 world)))
    × (ids : List String) × (lookup "users" "name"
          (str "Ann")
          (view 2 (perform_all "users" writes world))
        ≡ ok ids)
    × (count "1" ids ≡ (
        if has_text "name" (to_str (str "Ann")) (holdings "users" (view 2 world) "1")
        then 1
        else 0))
stale-perform_all_example =
    stale-perform_all "users" "name" "1" (str "Ann") 2 writes world refl (λ p. users-IsReady)
      users-IsIndexed has_name
