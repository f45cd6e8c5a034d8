-- ===== src/Storage/Engine/Declared.antt =====
-- Which fields of a collection have an index: no write of a document changes that.
use text.Mathlib.Text.{◌==◌ as str_eq}
use jsonpy_sql.Prelude.{
  ◌≡◌, refl, ◌∙◌, String, Bool, true, false, Option, none, some, List, [], ◌∷◌, arith, eq_iff,
  Bool-cases, inl, inr,
}
use jsonpy_sql.Python.Dict as D
use jsonpy_sql.Python.Dict.{string_key, get-set}
use jsonpy_sql.Python.Value.{Document}
use jsonpy_sql.Python.Result.{ok, ok-injective, call_returned}
use jsonpy_sql.Storage.SortedDict.{SortedDict}
use jsonpy_sql.Storage.DocumentStore as Store
use jsonpy_sql.Storage.DocumentStore.{Line}
use jsonpy_sql.Storage.IndexManager as Im
use jsonpy_sql.Storage.IndexManager.{
  IndexManager, IndexSpec, find_index_for, has_index_for, add_to_indexes, remove_from_indexes,
  remove_old, only_field,
}
use jsonpy_sql.Storage.Engine.State.{
  Engine, file_of, write_back, insert, update, delete, with_id, with_id?,
}
use jsonpy_sql.Storage.Engine.Documents.{locked}

module _ {S : Type 0} where
  abbrev pub is_some : Option S → Bool
  is_some none = false
  is_some (some _) = true

module _ {S : Type 0} ⦃sd : SortedDict S⦄ where
  abbrev indexed_by : String → Option (IndexManager S) → Bool
  indexed_by f none = false
  indexed_by f (some im) = has_index_for f im

  -- Whether the collection has an index on the field alone.
  abbrev pub has_index : String → String → Engine S → Bool
  has_index col f e = indexed_by f (D.get col e.managers)

  pub found_index :
      (col f : String) (e : Engine S) (im : IndexManager S)
      → D.get col e.managers ≡ some im
      → has_index col f e ≡ has_index_for f im
  found_index col f e im h = rw h refl

  pub has_index_is :
      (f : String) (im : IndexManager S)
      → has_index_for f im ≡ is_some (find_index_for f im.indexes)
  unfolding has_index_for
  has_index_is f im = ground arith

  is_some-add :
      (f id : String) (d : Document) (xs : List (IndexSpec × S))
      → is_some (find_index_for f (add_to_indexes id d xs)) ≡ is_some (find_index_for f xs)
  unfolding find_index_for add_to_indexes
  is_some-add f id d [] = refl
  is_some-add f id d ((spec, idx) ∷ xs) = ground (arith, is_some-add f id d xs)

  is_some-remove :
      (f id : String) (d : Document) (xs : List (IndexSpec × S))
      → is_some (find_index_for f (remove_from_indexes id d xs)) ≡ is_some (find_index_for f xs)
  unfolding find_index_for remove_from_indexes
  is_some-remove f id d [] = refl
  is_some-remove f id d ((spec, idx) ∷ xs) = ground (arith, is_some-remove f id d xs)

  is_some-remove_old :
      (f id : String) (o : Option Document) (xs : List (IndexSpec × S))
      → is_some (find_index_for f (remove_old id o xs)) ≡ is_some (find_index_for f xs)
  is_some-remove_old f id none xs = refl
  is_some-remove_old f id (some d) xs = is_some-remove f id d xs

  has_index-write_back :
      (col c f : String) (ls : Store.File) (im im' : IndexManager S) (e : Engine S)
      → D.get col e.managers ≡ some im
      → is_some (find_index_for f im'.indexes) ≡ is_some (find_index_for f im.indexes)
      → has_index c f (write_back col ls im' e) ≡ has_index c f e
  unfolding write_back
  has_index-write_back col c f ls im im' e h same = elim (Bool-cases (str_eq col c)) [
    | inl q ↦ rw (get-set, q, ← (eq_iff col c).0 q, h, has_index_is f im', has_index_is f im) same
    | inr q ↦ rw (get-set, q) refl
  ]

  pub has_index-insert :
      (col c f id : String) (d : Document) (e e' : Engine S)
      → insert col id d e ≡ ok e'
      → has_index c f e' ≡ has_index c f e
  unfolding insert Im.on_insert Im.save
  has_index-insert col c f id d e e' h =
      let (im, ls, p, q, r) = locked col e _ h in
      rw (← ok-injective r)
        (has_index-write_back col c f _ im _ e p (is_some-add f id (with_id id d) im.indexes))

  pub has_index-update :
      (col c f id : String) (d : Document) (e e' : Engine S)
      → update col id d e ≡ ok e'
      → has_index c f e' ≡ has_index c f e
  unfolding update Im.on_update Im.save
  has_index-update col c f id d e e' h =
      let (im, ls, p, q, r) = locked col e _ h in
      let (old, s, t) = call_returned (Store.get id (file_of col e)) _ r in
      rw (← ok-injective t) (
        has_index-write_back col c f _ im _ e p (
          is_some-add f id (with_id id d) (remove_old id (with_id? id old) im.indexes)
          ∙ is_some-remove_old f id (with_id? id old) im.indexes))

  pub has_index-delete :
      (col c f id : String) (e e' : Engine S)
      → delete col id e ≡ ok e'
      → has_index c f e' ≡ has_index c f e
  unfolding delete Im.on_delete Im.save
  has_index-delete col c f id e e' h =
      let (im, ls, p, q, r) = locked col e _ h in
      let (old, s, t) = call_returned (Store.get id (file_of col e)) _ r in
      rw (← ok-injective t) (
        has_index-write_back col c f _ im _ e p
          (is_some-remove_old f id (with_id? id old) im.indexes))
