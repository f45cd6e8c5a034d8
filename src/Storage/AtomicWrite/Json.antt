-- ===== src/Storage/AtomicWrite/Json.antt =====
-- `_write_json` against `_read_json`, whichever calls fail and wherever the process stops.
use jsonpy_sql.Prelude.{◌≡◌, ◌⊎◌, inl, inr, refl, String, Option, none, some, List, [], ◌∷◌, All}
use jsonpy_sql.Python.Dict as D
use jsonpy_sql.Python.Dict.{string_key}
use jsonpy_sql.Python.Result.{Result, ok, err, storage_error}
use jsonpy_sql.Storage.AtomicWrite.{Os, Files, tmp_of, write_json, read_json}
use jsonpy_sql.Storage.AtomicWrite.Atomic.{
  tmp_apart, IsWhole, IsEnd, IsAtomic, write_beside-IsAtomic,
}

module _ {C V : Type 0} (dump : V → List C) (parse : List C → Option V) where
  -- The write has returned, the file reads as the data and no temporary file is left; or it has
  -- raised a StorageError, and the file reads as before.
  abbrev pub IsOutcome : String → V → Files C → Result (Unit {0}) → Files C → Type 0
  IsOutcome path v fs (ok u) fs' =
      (read_json parse path fs' ≡ ok v) × (D.get (tmp_of path) fs' ≡ none)
  IsOutcome path v fs (err x) fs' =
      (x ≡ storage_error) × (read_json parse path fs' ≡ read_json parse path fs)

  -- The file reads as before, or as the data.
  abbrev pub ReadsWhole : String → V → Files C → Files C → Type 0
  ReadsWhole path v fs fs' =
      (read_json parse path fs' ≡ read_json parse path fs) ⊎ (read_json parse path fs' ≡ ok v)

  read_same :
      (path : String) (fs fs' : Files C)
      → D.get path fs' ≡ D.get path fs
      → read_json parse path fs' ≡ read_json parse path fs
  unfolding read_json
  read_same path fs fs' h = rw (read_json, h) refl

  module _ (inverse : (v : V) → parse (dump v) ≡ some v) where
    read_dumped :
        (path : String) (v : V) (fs : Files C)
        → D.get path fs ≡ some (dump v)
        → read_json parse path fs ≡ ok v
    unfolding read_json
    read_dumped path v fs h = rw (read_json, h, inverse v) refl

    outcome :
        (os : Os) (path : String) (v : V) (fs fs' : Files C) (r : Result (Unit {0}))
        → IsEnd path (D.get path fs) (tmp_of path) (dump v) r fs'
        → IsOutcome path v fs r fs'
    outcome os path v fs fs' (ok u) (h, gone) = (read_dumped path v fs' h, gone)
    outcome os path v fs fs' (err x) (h, same) = (h, read_same path fs fs' same)

    reads_whole :
        (os : Os) (path : String) (v : V) (fs : Files C) (seen : List (Files C))
        → All (IsWhole path (D.get path fs) (dump v)) seen
        → All (ReadsWhole path v fs) seen
    reads_whole os path v fs [] h = tt
    reads_whole os path v fs (fs' ∷ seen) (inl same, h) =
        (inl (read_same path fs fs' same), reads_whole os path v fs seen h)
    reads_whole os path v fs (fs' ∷ seen) (inr new, h) =
        (inr (read_dumped path v fs' new), reads_whole os path v fs seen h)

    written :
        (os : Os) (path : String) (v : V) (fs : Files C)
        → IsAtomic path (D.get path fs) (tmp_of path) (dump v) (write_json dump os path v fs)
    unfolding write_json
    written os path v fs =
        write_beside-IsAtomic path (D.get path fs) os (tmp_of path) (tmp_apart path) (dump v) fs
          refl

    -- Let the parser read back what is dumped. Whichever calls of the operating system fail, the
    -- write of an index file either returns, and then the file reads as the data and no temporary
    -- file is left, or it raises a StorageError, and then the file reads as before.
    pub read_json-write_json :
        (os : Os) (path : String) (v : V) (fs : Files C)
        → IsOutcome path v fs
            (write_json dump os path v fs).result
            (write_json dump os path v fs).files
    read_json-write_json os path v fs =
        outcome os path v fs (write_json dump os path v fs).files
          (write_json dump os path v fs).result (written os path v fs).0

    -- Let the parser read back what is dumped. Wherever the process stops while it writes an index
    -- file, and whichever calls fail, the file reads as before or as the data: never as a part.
    pub write_json_stops :
        (os : Os) (path : String) (v : V) (fs : Files C)
        → All (ReadsWhole path v fs) (write_json dump os path v fs).seen
    write_json_stops os path v fs =
        reads_whole os path v fs (write_json dump os path v fs).seen (written os path v fs).1
