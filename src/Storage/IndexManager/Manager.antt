-- ===== src/Storage/IndexManager/Manager.antt =====
-- The class `IndexManager` over one collection. `self._specs` and `self._indexes` are lists of one
-- length, here one list of pairs; the index files of the collection stand beside the memory.
use Prim.Native.String.{◌++◌ as str_append}
use text.Mathlib.Text.{◌==◌ as str_eq}
use jsonpy_sql.Prelude.{
  String, Bool, true, false, Option, none, some, List, [], ◌∷◌, ◌++◌, map, if◌then◌else◌, ltb,
  length,
}
use jsonpy_sql.Python.Dict as D
use jsonpy_sql.Python.Dict.{Dict, string_key}
use jsonpy_sql.Python.Value.{Value, to_str, Document}
use jsonpy_sql.Storage.SortedDict.{SortedDict, Postings}
use jsonpy_sql.Storage.IndexManager.Keys.{IndexSpec, scalar, encode_key, decode_key, key_of}
use jsonpy_sql.Storage.IndexManager.Index.{ids_at, add_to_index, remove_from_index}

-- A `.idx` file: its JSON, or a text that `_read_idx` refuses.
pub data IdxFile : Type 0 where
  payload : IndexSpec → Postings → IdxFile
  unreadable : IdxFile

-- A `.ridx` file.
pub data RidxFile : Type 0 where
  reverse_of : Postings → RidxFile
  unreadable : RidxFile

-- The index files of a collection, by the part of their names that the spec gives.
pub record IndexFiles : Type 0 where
  pub idx : Dict String IdxFile
  pub ridx : Option RidxFile

pub record IndexManager (S : Type 0) : Type 0 where
  pub indexes : List (IndexSpec × S)
  pub reverse : S
  pub files : IndexFiles

-- `"_".join(fields)`
abbrev pub file_name : List String → String
file_name [] = ""
file_name (f ∷ []) = f
file_name (f ∷ g ∷ fs) = str_append f (str_append "_" (file_name (g ∷ fs)))

abbrev pub id_text : Option Value → String
id_text none = ""
id_text (some v) = to_str v

-- `doc.get("_id", "")`; an `_id` that is no string, which no writer stores, is read as its text.
abbrev pub id_or_empty : Document → String
id_or_empty doc = id_text (D.get "_id" doc)

-- `spec.fields == [field]`
abbrev pub only_field : String → List String → Bool
only_field f (g ∷ []) = str_eq g f
only_field f gs = false

module _ {S : Type 0} ⦃sd : SortedDict S⦄ where
  -- `_add_to_indexes`
  unfoldable pub add_to_indexes : String → Document → List (IndexSpec × S) → List (IndexSpec × S)
  add_to_indexes doc_id document [] = []
  add_to_indexes doc_id document ((spec, idx) ∷ xs) =
      (spec, add_to_index doc_id (key_of spec document) idx) ∷ add_to_indexes doc_id document xs

  -- `_remove_from_indexes`
  unfoldable pub remove_from_indexes :
      String → Document → List (IndexSpec × S) → List (IndexSpec × S)
  remove_from_indexes doc_id document [] = []
  remove_from_indexes doc_id document ((spec, idx) ∷ xs) =
      (spec, remove_from_index doc_id (key_of spec document) idx)
      ∷ remove_from_indexes doc_id document xs

  -- `_write_idx` of each index, in turn
  unfoldable pub write_idxs : List (IndexSpec × S) → Dict String IdxFile → Dict String IdxFile
  write_idxs [] fs = fs
  write_idxs ((spec, idx) ∷ xs) fs =
      write_idxs xs (D.set (file_name spec.fields) (payload spec (sd.items idx)) fs)

  unfoldable pub save : IndexManager S → IndexManager S
  save im = record im {
    files = record {
      idx = write_idxs im.indexes im.files.idx;
      ridx = some (reverse_of (sd.items im.reverse));
    };
  }

  -- The loop of `_read_idx`.
  unfoldable pub read_entries : Bool → Postings → S → S
  read_entries is_compound [] idx = idx
  read_entries is_compound ((raw, ids) ∷ p) idx =
      read_entries is_compound p (sd.set (encode_key (decode_key raw is_compound)) ids idx)

  unfoldable pub read_idx : IndexSpec → Postings → S
  read_idx spec p = read_entries (ltb 1 (length spec.fields)) p sd.empty

  -- The round of `load` for one spec: a missing file leaves the index as it is.
  unfoldable pub load_idx : IndexSpec → Option IdxFile → S → S
  load_idx spec none idx = idx
  load_idx spec (some (payload _ p)) idx = read_idx spec p
  load_idx spec (some IdxFile.unreadable) idx = sd.empty

  unfoldable pub load_idxs : Dict String IdxFile → List (IndexSpec × S) → List (IndexSpec × S)
  load_idxs fs [] = []
  load_idxs fs ((spec, idx) ∷ xs) =
      (spec, load_idx spec (D.get (file_name spec.fields) fs) idx) ∷ load_idxs fs xs

  unfoldable pub load_ridx : Option RidxFile → S → S
  load_ridx none rev = rev
  load_ridx (some (reverse_of p)) rev = sd.of_dict p
  load_ridx (some RidxFile.unreadable) rev = sd.empty

  unfoldable pub load : IndexManager S → IndexManager S
  load im = record im {
    indexes = load_idxs im.files.idx im.indexes;
    reverse = load_ridx im.files.ridx im.reverse;
  }

  abbrev pub fresh : List IndexSpec → List (IndexSpec × S)
  fresh specs = map (λ spec. (spec, sd.empty)) specs

  -- `__init__`, over the files that are there
  unfoldable pub init : List IndexSpec → IndexFiles → IndexManager S
  init specs files = record { indexes = fresh specs; reverse = sd.empty; files = files }

  abbrev pub cleared : List (IndexSpec × S) → List (IndexSpec × S)
  cleared xs = map (λ x. (x.0, sd.empty)) xs

  unfoldable pub rebuild_loop : List Document → List (IndexSpec × S) → List (IndexSpec × S)
  rebuild_loop [] xs = xs
  rebuild_loop (doc ∷ docs) xs = rebuild_loop docs (add_to_indexes (id_or_empty doc) doc xs)

  unfoldable pub rebuild : List Document → IndexManager S → IndexManager S
  rebuild docs im = record im {
    indexes = rebuild_loop docs (cleared im.indexes);
    reverse = sd.empty;
  }

  abbrev unlink_all : List (IndexSpec × S) → Dict String IdxFile → Dict String IdxFile
  unlink_all [] fs = fs
  unlink_all ((spec, _) ∷ xs) fs = unlink_all xs (D.del (file_name spec.fields) fs)

  unfoldable pub destroy : IndexManager S → IndexManager S
  destroy im = record im {
    files = record { idx = unlink_all im.indexes im.files.idx; ridx = none };
  }

  unfoldable pub on_insert : String → Document → IndexManager S → IndexManager S
  on_insert doc_id document im =
      save (record im { indexes = add_to_indexes doc_id document im.indexes })

  -- `if document is not None: self._remove_from_indexes(...)`
  abbrev pub remove_old : String → Option Document → List (IndexSpec × S) → List (IndexSpec × S)
  remove_old doc_id none xs = xs
  remove_old doc_id (some old) xs = remove_from_indexes doc_id old xs

  unfoldable pub on_update : String → Option Document → Document → IndexManager S → IndexManager S
  on_update doc_id old_doc new_doc im =
      save (record im {
        indexes = add_to_indexes doc_id new_doc (remove_old doc_id old_doc im.indexes);
      })

  unfoldable pub on_delete : String → Option Document → IndexManager S → IndexManager S
  on_delete doc_id document im =
      save (record im { indexes = remove_old doc_id document im.indexes })

  unfoldable pub add_reverse : String → String → IndexManager S → IndexManager S
  add_reverse parent_id child_id im =
      save (record im { reverse = add_to_index child_id parent_id im.reverse })

  unfoldable pub remove_reverse : String → String → IndexManager S → IndexManager S
  remove_reverse parent_id child_id im =
      save (record im { reverse = remove_from_index child_id parent_id im.reverse })

  unfoldable pub get_children : String → IndexManager S → List String
  get_children parent_id im = ids_at parent_id im.reverse

  -- `_find_index_for`
  unfoldable pub find_index_for : String → List (IndexSpec × S) → Option S
  find_index_for f [] = none
  find_index_for f ((spec, idx) ∷ xs) =
      if only_field f spec.fields then some idx else find_index_for f xs

  unfoldable pub has_index_for : String → IndexManager S → Bool
  has_index_for f im = elim (find_index_for f im.indexes) [ none ↦ false | some _ ↦ true ]

  abbrev pub lookup_in : Option S → Value → List String
  lookup_in none value = []
  lookup_in (some idx) value = ids_at (encode_key (scalar value)) idx

  unfoldable pub lookup : String → Value → IndexManager S → List String
  lookup f value im = lookup_in (find_index_for f im.indexes) value

  abbrev pub all_ids : List String → S → List String
  all_ids [] idx = []
  all_ids (key ∷ keys) idx = ids_at key idx ++ all_ids keys idx

  abbrev pub range_in : Option S → String → String → List String
  range_in none low high = []
  range_in (some idx) low high = all_ids (sd.irange low high idx) idx

  unfoldable pub range_scan : String → Value → Value → IndexManager S → List String
  range_scan f low high im =
      range_in (find_index_for f im.indexes) (encode_key (scalar low)) (encode_key (scalar high))
