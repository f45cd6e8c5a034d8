-- ===== src/Tests/Starts.antt =====
-- Starts over the directory of `users` with a log that was left, and with no index files.
use text.Mathlib.Text.{◌==◌ as str_eq}
use jsonpy_sql.Prelude.{String, List, [], ◌∷◌}
use jsonpy_sql.Python.Dict as D
use jsonpy_sql.Python.Dict.{Dict, string_key}
use jsonpy_sql.Storage.IndexManager.{IndexSpec}
use jsonpy_sql.Storage.Engine.{Engine}
use jsonpy_sql.Tests.Instances.{entry_list}
use jsonpy_sql.Tests.Collections.{by_name}

abbrev only_users : Dict String (List IndexSpec)
only_users = ("users", by_name ∷ []) ∷ []
