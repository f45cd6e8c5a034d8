-- ===== src/Tests/Statistics.antt =====
-- The statistics of the collection `users`.
use jsonpy_sql.Prelude.{ℕ, ◌+◌, ◌≤◌, ◌<◌, ◌≡◌, refl, List, [], ◌∷◌, length}
use jsonpy_sql.Python.Dict as D
use jsonpy_sql.Python.Dict.{string_key}
use jsonpy_sql.Python.Value.{truthy}
use jsonpy_sql.Python.Result.{ok}
use jsonpy_sql.Storage.DocumentStore as Store
use jsonpy_sql.Storage.DocumentStore.{Line}
use jsonpy_sql.Storage.Engine.{CollectionStats, get_stats, scan, require, lock}
use jsonpy_sql.Storage.Engine.Statistics.{deleted_ratio, get_stats_bounds}
use jsonpy_sql.Tests.Instances.{entry_list}
use jsonpy_sql.Tests.Collections.{ann_stored, users}

abbrev size_of : List Line → ℕ
size_of ls = length ls

abbrev reported : CollectionStats
reported = record {
  name = "users";
  document_count = 1;
  deleted_count = 0;
  total_lines = 1;
  index_count = 1;
  file_size_bytes = 1;
}

users-reported : get_stats size_of "users" users ≡ ok reported
unfolding get_stats require Store.count_lines Store.iter_lines Store.count_loop Store.parse D.get
    truthy
users-reported = refl

users_scanned : scan "users" users ≡ ok (ann_stored ∷ [])
unfolding scan require lock Store.scan Store.iter_lines Store.scan_loop Store.scan_step
    Store.live_docs Store.parse D.get D.set truthy
users_scanned = refl

get_stats_bounds_example :
    (reported.document_count + reported.deleted_count ≡ reported.total_lines)
    × (length (ann_stored ∷ []) ≤ reported.document_count)
    × (0 < (deleted_ratio reported).1)
    × ((deleted_ratio reported).0 ≤ (deleted_ratio reported).1)
get_stats_bounds_example =
    get_stats_bounds size_of "users" users reported (ann_stored ∷ []) users-reported users_scanned
