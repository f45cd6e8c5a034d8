-- ===== src/Storage/AtomicWrite/Compaction.antt =====
-- The rewrite of a `.jsonl` file by its calls against the compaction of the file as a list of lines.
use jsonpy_sql.Prelude.{◌≡◌, inl, inr, refl, ◌∙◌, ap, String, none, List, [], ◌∷◌, map, All}
use jsonpy_sql.Python.Dict as D
use jsonpy_sql.Python.Dict.{string_key}
use jsonpy_sql.Python.Value.{Document}
use jsonpy_sql.Python.Result.{Result, ok, err, storage_error}
use jsonpy_sql.Storage.DocumentStore as Store
use jsonpy_sql.Storage.DocumentStore.{Line, json}
use jsonpy_sql.Storage.DocumentStore.Compaction.{scan-compact}
use jsonpy_sql.Storage.AtomicWrite.{Os, Files, tmp_of, compact_file}
use jsonpy_sql.Storage.AtomicWrite.Atomic.{
  tmp_apart, IsWhole, IsEnd, IsAtomic, write_beside-IsAtomic,
}

-- The call has returned and the file is the compacted one, with no temporary file left, or it has
-- raised a StorageError and the file is as it was.
abbrev pub IsCompaction :
    String → List Document → Files Line → Result (Unit {0}) → Files Line → Type 0
IsCompaction path docs fs (ok u) fs' =
    (D.get path fs' ≡ Store.compact docs (D.get path fs)) × (D.get (tmp_of path) fs' ≡ none)
IsCompaction path docs fs (err x) fs' = (x ≡ storage_error) × (D.get path fs' ≡ D.get path fs)

-- A scan of the file yields these documents.
abbrev pub Yields : String → List Document → Files Line → Type 0
Yields path docs fs = Store.scan (D.get path fs) ≡ ok docs

module _ (os : Os) (path : String) (docs : List Document) (fs : Files Line) where
  rewritten :
      IsAtomic path (D.get path fs) (tmp_of path) (map json docs) (compact_file os path docs fs)
  unfolding compact_file
  rewritten =
      write_beside-IsAtomic path (D.get path fs) os (tmp_of path) (tmp_apart path) (map json docs)
        fs refl

  compaction :
      (r : Result (Unit {0})) (fs' : Files Line)
      → IsEnd path (D.get path fs) (tmp_of path) (map json docs) r fs'
      → IsCompaction path docs fs r fs'
  unfolding Store.compact
  compaction (ok u) fs' h = h
  compaction (err x) fs' h = h

  yielded :
      (seen : List (Files Line))
      → Yields path docs fs
      → All (IsWhole path (D.get path fs) (map json docs)) seen
      → All (Yields path docs) seen
  unfolding Store.compact
  yielded [] h w = tt
  yielded (fs' ∷ seen) h (inl same, w) = (ap Store.scan same ∙ h, yielded seen h w)
  yielded (fs' ∷ seen) h (inr new, w) =
      (ap Store.scan new ∙ scan-compact (D.get path fs) docs h, yielded seen h w)

  -- Whichever calls of the operating system fail, `compact` either returns, and then the file is
  -- the one that the compaction of its lines gives and no temporary file is left, or it raises a
  -- StorageError, and then the file is as it was.
  pub compact_file-IsCompaction :
      IsCompaction path docs fs
        (compact_file os path docs fs).result
        (compact_file os path docs fs).files
  compact_file-IsCompaction =
      compaction (compact_file os path docs fs).result (compact_file os path docs fs).files
        rewritten.0

  -- If a scan of a file yields documents and they are what `compact` writes, then wherever the process
  -- stops and whichever calls fail, a scan of the file still yields them, in the same order.
  pub compact_file_stops :
      Yields path docs fs → All (Yields path docs) (compact_file os path docs fs).seen
  compact_file_stops h = yielded (compact_file os path docs fs).seen h rewritten.1
