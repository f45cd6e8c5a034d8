-- ===== src/Storage/Engine/Shared.antt =====
-- Several processes over one directory. Each has an engine of its own, whose managers it read when
-- it started; the document files are those of the directory. A write holds the lock of its file
-- from its first read to its last, so that writes come one after the other. Index files play no
-- part here: they are only read at the start.
pub mod Reads
pub mod Stale
use text.Mathlib.Text.{◌==◌ as str_eq}
use text.Mathlib.TextPositions.{eq_refl}
use jsonpy_sql.Prelude.{
  ℕ, ◌≡◌, refl, sym, ◌∙◌, ap, subst, String, Bool, true, false, Option, none, some, List, [], ◌∷◌,
  arith, eq_iff, if◌then◌else◌, eqb, not, all_of,
}
use jsonpy_sql.Python.Dict as D
use jsonpy_sql.Python.Dict.{Dict, string_key}
use jsonpy_sql.Python.Value.{Value, Document}
use jsonpy_sql.Python.Result.{Result, ok, err, ok-injective, call_returned}
use jsonpy_sql.Storage.SortedDict.{SortedDict}
use jsonpy_sql.Storage.DocumentStore.{Line}
use jsonpy_sql.Storage.DocumentStore.Reads.{visible}
use jsonpy_sql.Storage.DocumentStore as Store
use jsonpy_sql.Storage.IndexManager as Im
use jsonpy_sql.Storage.IndexManager.{IndexManager, has_index_for}
use jsonpy_sql.Storage.Engine.State.{
  Engine, require, lock, file_of, write_back, with_id, with_id?, get, insert, update, delete,
  lookup,
}
use jsonpy_sql.Storage.Engine.Documents.{
  overwrite, IsReady, opened, get-insert, get-update, get-delete,
}
use jsonpy_sql.Storage.Engine.Reopening.{get_alike}

-- A write to the collection at hand
pub data Write : Type 0 where
  inserting updating : String → Document → Write
  deleting : String → Write

abbrev pub id_of : Write → String
id_of (inserting id d) = id
id_of (updating id d) = id
id_of (deleting id) = id

-- What a reader sees of the document afterwards
abbrev pub shown : Write → Option Document
shown (inserting id d) = visible d
shown (updating id d) = visible d
shown (deleting id) = none

-- The reads of one document after writes in this order
abbrev pub after_writes :
    List (ℕ × Write) → String → Result (Option Document) → Result (Option Document)
after_writes [] j r = r
after_writes ((p, w) ∷ ws) j r = after_writes ws j (overwrite (id_of w) (shown w) j r)

-- None of the writes is by this process.
abbrev pub by_others : ℕ → List (ℕ × Write) → Bool
by_others q ws = all_of (λ pw. not (eqb q pw.0)) ws

pub record World (S : Type 0) : Type 0 where
  pub jsonl : Dict String (List Line)
  pub sessions : ℕ → Engine S

module _ {S : Type 0} where
  abbrev pub managers_of : Engine S → Dict String (IndexManager S)
  managers_of e = e.managers

  -- The engine of a process, over the files as they are now
  abbrev pub view : ℕ → World S → Engine S
  view p world = record (world.sessions p) { jsonl = world.jsonl }

  abbrev pub put_session : ℕ → Engine S → (ℕ → Engine S) → ℕ → Engine S
  put_session p e sessions q = if eqb q p then e else sessions q

  abbrev pub publish : ℕ → Result (Engine S) → World S → World S
  publish p (ok e) world = record { jsonl = e.jsonl; sessions = put_session p e world.sessions }
  publish p (err x) world = world

module _ {S : Type 0} ⦃sd : SortedDict S⦄ where
  unfoldable pub perform : String → Write → Engine S → Result (Engine S)
  perform col (inserting id d) e = insert col id d e
  perform col (updating id d) e = update col id d e
  perform col (deleting id) e = delete col id e

  -- The writes of the processes in the order in which they got the lock
  unfoldable pub perform_all : String → List (ℕ × Write) → World S → World S
  perform_all col [] world = world
  perform_all col ((p, w) ∷ ws) world =
      perform_all col ws (publish p (perform col w (view p world)) world)
