-- ===== src/Storage/IndexManager/Contents.antt =====
-- What the indexes list after each operation, against the documents that the collection holds.
use text.Mathlib.Text.{◌==◌ as str_eq}
use jsonpy_sql.Prelude.{
  ◌<◌, ◌≡◌, refl, String, Bool, true, false, Option, none, some, List, [], ◌∷◌, arith, eq_iff,
  if◌then◌else◌, fun_ext,
}
use jsonpy_sql.Python.Value.{Document}
use jsonpy_sql.Storage.SortedDict.{SortedDict}
use jsonpy_sql.Storage.IndexManager.Keys.{IndexSpec, key_of}
use jsonpy_sql.Storage.IndexManager.Index.{
  count, ids_at, count-add_to_index, count-remove_from_index,
}
use jsonpy_sql.Storage.IndexManager.Manager.{
  IndexManager, add_to_indexes, remove_from_indexes, save, on_insert, remove_old, on_update,
  on_delete,
}

-- The documents that a collection holds, with their `_id`, by id.
abbrev pub Holdings : Type 0
Holdings = String → Option Document

-- Whether a spec files this document, if there is one, under the key text `k`.
abbrev pub listed : IndexSpec → Option Document → String → Bool
listed spec none k = false
listed spec (some d) k = str_eq (key_of spec d) k

-- `cur'` is `cur` but at `id`, where it is `v`.
abbrev pub IsChange : String → Option Document → Holdings → Holdings → Type 0
IsChange id v cur cur' = (j : String) → cur' j ≡ (if str_eq id j then v else cur j)

module _ {S : Type 0} ⦃sd : SortedDict S⦄ where
  -- Each index lists each held document once, under its key, and nothing else.
  abbrev pub IsExact : Holdings → List (IndexSpec × S) → Type 0
  IsExact cur [] = Unit
  IsExact cur ((spec, idx) ∷ xs) =
      ((j k : String) → count j (ids_at k idx) ≡ (if listed spec (cur j) k then 1 else 0))
      × IsExact cur xs

  -- Each index lists each held document under its key, and perhaps more.
  abbrev pub IsComplete : Holdings → List (IndexSpec × S) → Type 0
  IsComplete cur [] = Unit
  IsComplete cur ((spec, idx) ∷ xs) =
      ((j k : String) → listed spec (cur j) k ≡ true → 0 < count j (ids_at k idx))
      × IsComplete cur xs

  pub add-IsExact :
      (id : String) (d : Document) (cur cur' : Holdings) (xs : List (IndexSpec × S))
      → cur id ≡ none
      → IsChange id (some d) cur cur'
      → IsExact cur xs
      → IsExact cur' (add_to_indexes id d xs)
  unfolding add_to_indexes
  add-IsExact id d cur cur' [] new ch h = tt
  add-IsExact id d cur cur' ((spec, idx) ∷ xs) new ch h = (
    λ j k. ground (
      arith,
      ch j,
      h.0 j k,
      h.0 id k,
      eq_iff id j,
      count-add_to_index id (key_of spec d) j k idx,
    ),
    add-IsExact id d cur cur' xs new ch h.1,
  )

  remove-IsExact :
      (id : String) (d : Document) (cur cur' : Holdings) (xs : List (IndexSpec × S))
      → cur id ≡ some d
      → IsChange id none cur cur'
      → IsExact cur xs
      → IsExact cur' (remove_from_indexes id d xs)
  unfolding remove_from_indexes
  remove-IsExact id d cur cur' [] old ch h = tt
  remove-IsExact id d cur cur' ((spec, idx) ∷ xs) old ch h = (
    λ j k. ground (
      arith,
      ch j,
      h.0 j k,
      h.0 id k,
      eq_iff id j,
      count-remove_from_index id (key_of spec d) j k idx,
    ),
    remove-IsExact id d cur cur' xs old ch h.1,
  )

  add-IsComplete :
      (id : String) (d : Document) (cur cur' : Holdings) (xs : List (IndexSpec × S))
      → IsChange id (some d) cur cur'
      → IsComplete cur xs
      → IsComplete cur' (add_to_indexes id d xs)
  unfolding add_to_indexes
  add-IsComplete id d cur cur' [] ch h = tt
  add-IsComplete id d cur cur' ((spec, idx) ∷ xs) ch h = (
    λ j k e.
        ground (arith, ch j, h.0 j k, eq_iff id j, count-add_to_index id (key_of spec d) j k idx),
    add-IsComplete id d cur cur' xs ch h.1,
  )

  remove-IsComplete :
      (id : String) (d : Document) (cur cur' : Holdings) (xs : List (IndexSpec × S))
      → IsChange id none cur cur'
      → IsComplete cur xs
      → IsComplete cur' (remove_from_indexes id d xs)
  unfolding remove_from_indexes
  remove-IsComplete id d cur cur' [] ch h = tt
  remove-IsComplete id d cur cur' ((spec, idx) ∷ xs) ch h = (
    λ j k e.
        ground
          (arith, ch j, h.0 j k, eq_iff id j, count-remove_from_index id (key_of spec d) j k idx),
    remove-IsComplete id d cur cur' xs ch h.1,
  )

  -- Only the key texts of a document matter.
  pub add_to_indexes-cong :
      (id : String) (d d' : Document) (xs : List (IndexSpec × S))
      → ((spec : IndexSpec) → key_of spec d ≡ key_of spec d')
      → add_to_indexes id d xs ≡ add_to_indexes id d' xs
  unfolding add_to_indexes
  add_to_indexes-cong id d d' [] h = refl
  add_to_indexes-cong id d d' ((spec, idx) ∷ xs) h = rw (h spec, add_to_indexes-cong id d d' xs h)

-- `cur` without the document of `id`
abbrev without : String → Holdings → Holdings
without id cur j = if str_eq id j then none else cur j

module _ {S : Type 0} ⦃sd : SortedDict S⦄ where
  -- `on_insert` of a new id keeps the indexes exact. (`d'` is held, and is filed as `d` is.)
  pub on_insert-IsExact :
      (id : String) (d d' : Document) (cur cur' : Holdings) (im : IndexManager S)
      → ((spec : IndexSpec) → key_of spec d ≡ key_of spec d')
      → cur id ≡ none
      → IsChange id (some d') cur cur'
      → IsExact cur im.indexes
      → IsExact cur' (on_insert id d im).indexes
  unfolding on_insert save
  on_insert-IsExact id d d' cur cur' im same new ch h =
      rw (add_to_indexes-cong id d d' im.indexes same)
        (add-IsExact id d' cur cur' im.indexes new ch h)

  remove_old-IsExact :
      (id : String) (cur : Holdings) (xs : List (IndexSpec × S))
      → IsExact cur xs
      → IsExact (without id cur) (remove_old id (cur id) xs)
  remove_old-IsExact id cur xs h = go (cur id) refl
    where
      go : (o : Option Document) → cur id ≡ o → IsExact (without id cur) (remove_old id o xs)
      go (some d) e = remove-IsExact id d cur (without id cur) xs e (λ j. refl) h
      go none e = same xs h
        where
          same : (ys : List (IndexSpec × S)) → IsExact cur ys → IsExact (without id cur) ys
          same [] g = tt
          same ((spec, idx) ∷ ys) g = (λ j k. ground (arith, g.0 j k, eq_iff id j), same ys g.1)

  -- `on_update` from what is held to `d` keeps the indexes exact, also where nothing was held.
  pub on_update-IsExact :
      (id : String) (d d' : Document) (cur cur' : Holdings) (im : IndexManager S)
      → ((spec : IndexSpec) → key_of spec d ≡ key_of spec d')
      → IsChange id (some d') cur cur'
      → IsExact cur im.indexes
      → IsExact cur' (on_update id (cur id) d im).indexes
  unfolding on_update save
  on_update-IsExact id d d' cur cur' im same ch h =
      rw (add_to_indexes-cong id d d' (remove_old id (cur id) im.indexes) same) (
        add-IsExact id d' (without id cur) cur' (remove_old id (cur id) im.indexes)
          (ground (arith, eq_iff id id)) (λ j. ground (arith, ch j))
          (remove_old-IsExact id cur im.indexes h))

  -- `on_delete` of what is held keeps the indexes exact.
  pub on_delete-IsExact :
      (id : String) (cur cur' : Holdings) (im : IndexManager S)
      → IsChange id none cur cur'
      → IsExact cur im.indexes
      → IsExact cur' (on_delete id (cur id) im).indexes
  unfolding on_delete save
  on_delete-IsExact id cur cur' im ch h = rw (fun_ext ch) (remove_old-IsExact id cur im.indexes h)

  remove_old-IsComplete :
      (id : String) (old : Option Document) (cur : Holdings) (xs : List (IndexSpec × S))
      → IsComplete cur xs
      → IsComplete (without id cur) (remove_old id old xs)
  remove_old-IsComplete id (some d) cur xs h =
      remove-IsComplete id d cur (without id cur) xs (λ j. refl) h
  remove_old-IsComplete id none cur [] h = tt
  remove_old-IsComplete id none cur ((spec, idx) ∷ xs) h =
      (λ j k e. ground (arith, h.0 j k, eq_iff id j), remove_old-IsComplete id none cur xs h.1)

  -- Whatever the ids and the old documents passed, no document that is held goes missing.
  pub on_insert-IsComplete :
      (id : String) (d : Document) (cur cur' : Holdings) (im : IndexManager S)
      → IsChange id (some d) cur cur'
      → IsComplete cur im.indexes
      → IsComplete cur' (on_insert id d im).indexes
  unfolding on_insert save
  on_insert-IsComplete id d cur cur' im ch h = add-IsComplete id d cur cur' im.indexes ch h

  pub on_update-IsComplete :
      (id : String) (old : Option Document) (d : Document) (cur cur' : Holdings)
      (im : IndexManager S)
      → IsChange id (some d) cur cur'
      → IsComplete cur im.indexes
      → IsComplete cur' (on_update id old d im).indexes
  unfolding on_update save
  on_update-IsComplete id old d cur cur' im ch h =
      add-IsComplete id d (without id cur) cur' (remove_old id old im.indexes)
        (λ j. ground (arith, ch j)) (remove_old-IsComplete id old cur im.indexes h)

  pub on_delete-IsComplete :
      (id : String) (old : Option Document) (cur cur' : Holdings) (im : IndexManager S)
      → IsChange id none cur cur'
      → IsComplete cur im.indexes
      → IsComplete cur' (on_delete id old im).indexes
  unfolding on_delete save
  on_delete-IsComplete id old cur cur' im ch h =
      rw (fun_ext ch) (remove_old-IsComplete id old cur im.indexes h)
