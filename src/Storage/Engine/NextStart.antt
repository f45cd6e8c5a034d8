-- ===== src/Storage/Engine/NextStart.antt =====
-- The start of an engine over the directory of a process that stopped and left one log.
use text.Mathlib.Text.{◌==◌ as str_eq}
use jsonpy_sql.Python.Dict as D
use jsonpy_sql.Python.Dict.{Dict, string_key}
use jsonpy_sql.Python.Result.{Result}
use jsonpy_sql.Storage.SortedDict.{SortedDict}
use jsonpy_sql.Storage.DocumentStore as Store
use jsonpy_sql.Storage.IndexManager.{IndexManager}
use jsonpy_sql.Storage.Wal as Wal
use jsonpy_sql.Storage.Wal.{WalFile}
use jsonpy_sql.Storage.Engine.State.{Engine}
