-- ===== src/Storage/AtomicWrite.antt =====
-- The files that are written beside their place and moved there when they are complete:
-- `_write_json` and `_read_json` of storage/index_manager.py, and `compact` of
-- storage/document_store.py at the level of its calls. Each call of the operating system may raise
-- OSError, and the process may stop after each call.
pub mod Atomic
pub mod Json
pub mod Compaction
use Prim.Native.String.{◌++◌ as str_append}
use jsonpy_sql.Prelude.{
  ℕ, suc, String, Bool, true, false, Option, none, some, List, [], ◌∷◌, ◌++◌, map, if◌then◌else◌,
}
use jsonpy_sql.Python.Dict as D
use jsonpy_sql.Python.Dict.{Dict, string_key}
use jsonpy_sql.Python.Value.{Document}
use jsonpy_sql.Python.Result.{Result, ok, err, storage_error}
use jsonpy_sql.Storage.DocumentStore.{Line, json}

-- Which calls succeed: the opening of the temporary file, the write of each piece by its number,
-- the close at the end of `with`, the move, and the unlinking after a failure.
pub record Os : Type 0 where
  pub opens : Bool
  pub writes : ℕ → Bool
  pub closes : Bool
  pub moves : Bool
  pub unlinks : Bool

-- `path.with_suffix(path.suffix + ".tmp")`
abbrev pub tmp_of : String → String
tmp_of path = str_append path ".tmp"

-- The files of the directory by their names, as the pieces that were written to them
abbrev pub Files : Type 0 → Type 0
Files C = Dict String (List C)

-- What a sequence of calls returns, the files that it leaves, and the states of the directory after
-- each call that changed it.
pub record Run (C : Type 0) : Type 0 where
  pub result : Result (Unit {0})
  pub files : Files C
  pub seen : List (Files C)

module _ {C : Type 0} where
  -- The end of the calls
  abbrev pub at_end : Result (Unit {0}) → Files C → Run C
  at_end r fs = record { result = r; files = fs; seen = fs ∷ [] }

  abbrev pub or_nothing : Option (List C) → List C
  or_nothing none = []
  or_nothing (some cs) = cs

  -- `fh.write(piece)`
  unfoldable pub write_piece : String → C → Files C → Files C
  write_piece path c fs = D.set path (or_nothing (D.get path fs) ++ (c ∷ [])) fs

  -- `tmp.replace(path)`
  unfoldable pub move : String → String → Files C → Files C
  move tmp path fs = elim (D.get tmp fs) [ none ↦ fs | some cs ↦ D.set path cs (D.del tmp fs) ]

  -- The handler of OSError: `tmp.unlink(missing_ok=True)`, whose own OSError is dropped
  unfoldable pub handler : Os → String → Files C → Run C
  handler os tmp fs = at_end (err storage_error) (if os.unlinks then D.del tmp fs else fs)

  abbrev pub after : Files C → Run C → Run C
  after fs r = record { result = r.result; files = r.files; seen = fs ∷ r.seen }

  -- The end of the `with` block, and the move
  unfoldable pub close_and_move : Os → String → String → Files C → Run C
  close_and_move os tmp path fs = elim os.closes [
    | false ↦ handler os tmp fs
    | true ↦ elim os.moves [ false ↦ handler os tmp fs | true ↦ at_end (ok tt) (move tmp path fs) ]
  ]

  -- The body of the `with` block, from the piece with this number
  unfoldable pub write_pieces : Os → String → String → ℕ → List C → Files C → Run C
  write_pieces os tmp path i [] fs = close_and_move os tmp path fs
  write_pieces os tmp path i (c ∷ cs) fs = elim (os.writes i) [
    | false ↦ handler os tmp fs
    | true ↦
        after (write_piece tmp c fs) (write_pieces os tmp path (suc i) cs (write_piece tmp c fs))
  ]

  -- `open("w")`, the pieces, and the move
  unfoldable pub write_beside : Os → String → String → List C → Files C → Run C
  write_beside os tmp path cs fs = elim os.opens [
    | false ↦ handler os tmp fs
    | true ↦ after (D.set tmp [] fs) (write_pieces os tmp path 0 cs (D.set tmp [] fs))
  ]

module _ {C V : Type 0} where
  -- `_write_json`, where `dump` gives the pieces that `json.dump` writes
  unfoldable pub write_json : (V → List C) → Os → String → V → Files C → Run C
  write_json dump os path v fs = write_beside os (tmp_of path) path (dump v) fs

  -- `_read_json`, where `parse` is `json.load` on the text of a file, or nothing where it raises
  unfoldable pub read_json : (List C → Option V) → String → Files C → Result V
  read_json parse path fs = elim (D.get path fs) [
    | none ↦ err storage_error
    | some cs ↦ elim (parse cs) [ none ↦ err storage_error | some v ↦ ok v ]
  ]

-- `compact` writes one line for each document.
unfoldable pub compact_file : Os → String → List Document → Files Line → Run Line
compact_file os path docs fs = write_beside os (tmp_of path) path (map json docs) fs
