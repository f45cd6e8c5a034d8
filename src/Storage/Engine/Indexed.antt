-- ===== src/Storage/Engine/Indexed.antt =====
-- The indexes of a collection against its documents, over the engine's own writes.
use text.Mathlib.TextPositions.{eq_refl}
use jsonpy_sql.Prelude.{
  ◌≡◌, refl, sym, ◌∙◌, ap, subst, fun_ext, String, true, false, Option, none, some, List, [], ◌∷◌,
  arith, eq_iff, map, if◌then◌else◌,
}
use jsonpy_sql.Python.Dict as D
use jsonpy_sql.Python.Dict.{string_key, get-set, get-del}
use jsonpy_sql.Python.Value.{Value, to_str, truthy, Document, field}
use jsonpy_sql.Python.Result.{Result, ok, err, ok-injective, call_returned}
use jsonpy_sql.Storage.SortedDict.{SortedDict}
use jsonpy_sql.Storage.DocumentStore as Store
use jsonpy_sql.Storage.DocumentStore.{id_key, deleted_key, strip_id, Line}
use jsonpy_sql.Storage.DocumentStore.Reads.{visible}
use jsonpy_sql.Storage.IndexManager as Im
use jsonpy_sql.Storage.IndexManager.{
  IndexManager, IndexSpec, key_from, key_of, make_key, tuple, count,
}
use jsonpy_sql.Storage.IndexManager.Contents.{
  Holdings, IsChange, IsExact, on_insert-IsExact, on_update-IsExact, on_delete-IsExact,
}
use jsonpy_sql.Storage.IndexManager.Queries.{has_text, lookup-IsExact}
use jsonpy_sql.Storage.Engine.State.{
  Engine, file_of, write_back, require, get, insert, update, delete, lookup, with_id, with_id?,
}
use jsonpy_sql.Storage.Engine.Documents.{
  IsReady, locked, get_opened, get-insert, get-update, get-delete,
}
use jsonpy_sql.Storage.Engine.Entries.{IsOverwrite}

abbrev pub held : String → Result (Option Document) → Option Document
held j (ok o) = with_id? j o
held j (err x) = none

module _ {S : Type 0} where
  -- The documents that reads of a collection return, with their `_id`.
  abbrev pub holdings : String → Engine S → Holdings
  holdings col e j = held j (get col j e)

  -- What is held after one document was overwritten.
  pub IsOverwrite-IsChange :
      (col id : String) (v : Option Document) (e e' : Engine S)
      → IsReady col e
      → IsOverwrite col id v e e'
      → IsChange id (with_id? id v) (holdings col e) (holdings col e')
  IsOverwrite-IsChange col id v e e' h w j =
      rw (w col j, eq_refl col, (h j).1) (ground (arith, eq_iff id j))

-- The two ways in which the program puts an `_id` into a document differ in the order of its fields.
pub field-with_id :
    (f id : String) (d : Document) → field f (with_id id d) ≡ field f (with_id id (strip_id d))
unfolding strip_id
field-with_id f id d = simp (get-set, get-del) (ground arith)

-- A key depends on the fields of the document.
pub key_from_ext :
    (fs : List String) (d d' : Document)
    → ((f : String) → field f d ≡ field f d')
    → key_from fs d ≡ key_from fs d'
key_from_ext [] d d' h = refl
key_from_ext (f ∷ []) d d' h = rw (h f)
key_from_ext (f ∷ g ∷ fs) d d' h =
    ap (λ (φ : String → Value). tuple (map φ (f ∷ g ∷ fs))) (fun_ext h)

key_of-with_id :
    (id : String) (d : Document) (spec : IndexSpec)
    → key_of spec (with_id id d) ≡ key_of spec (with_id id (strip_id d))
unfolding make_key
key_of-with_id id d spec =
    ap Im.encode_key (
      key_from_ext spec.fields (with_id id d) (with_id id (strip_id d)) (λ f. field-with_id f id d))

module _ {S : Type 0} ⦃sd : SortedDict S⦄ where
  -- The collection has a manager, whose indexes list exactly the documents that reads return.
  abbrev pub IsIndexed : String → Engine S → Type 0
  IsIndexed col e =
      (im : IndexManager S) × (D.get col e.managers ≡ some im) × IsExact (holdings col e) im.indexes

  pub manager-write_back :
      (col : String) (f : Store.File) (im : IndexManager S) (e : Engine S)
      → D.get col (write_back col f im e).managers ≡ some im
  unfolding write_back
  manager-write_back col f im e = rw (get-set, eq_refl)

  some-injective : {x y : IndexManager S} → some x ≡ some y → x ≡ y
  some-injective h = cc

  -- What is held after a write of a document that is not marked deleted.
  pub written :
      (col id : String) (d : Document) (e e' : Engine S)
      → IsReady col e
      → truthy (field deleted_key d) ≡ false
      → IsOverwrite col id (visible d) e e'
      → IsChange id (some (with_id id (strip_id d))) (holdings col e) (holdings col e')
  unfolding visible
  written col id d e e' ready live w =
      let shown : visible d ≡ some (strip_id d) = ground arith in
      subst (λ o. IsChange id (with_id? id o) (holdings col e) (holdings col e')) shown
        (IsOverwrite-IsChange col id (visible d) e e' ready w)

  -- In a collection that can be read and whose indexes are exact, a successful `insert` of a new
  -- id with a document that is not marked deleted leaves exact indexes.
  pub insert-IsIndexed :
      (col id : String) (d : Document) (e e' : Engine S)
      → IsReady col e
      → get col id e ≡ ok none
      → truthy (field deleted_key d) ≡ false
      → IsIndexed col e
      → insert col id d e ≡ ok e'
      → IsIndexed col e'
  unfolding insert
  insert-IsIndexed col id d e e' ready new live (im, p, exact) h =
      let (im', ls, p', q, r) = locked col e _ h in
      let eq : im ≡ im' = some-injective (sym p ∙ p') in
      let all : IsExact (holdings col e) im'.indexes =
        subst (λ m. IsExact (holdings col e) m.indexes) eq exact in
      (
        Im.on_insert id (with_id id d) im',
        rw (← ok-injective r) (manager-write_back col _ _ e),
        on_insert-IsExact id (with_id id d) (with_id id (strip_id d)) (holdings col e)
            (holdings col e') im' (key_of-with_id id d) (rw new refl)
            (written col id d e e' ready live (λ c j. get-insert col c id j d e e' h)) all,
      )

  -- In a collection that can be read and whose indexes are exact, a successful `update` with a
  -- document that is not marked deleted leaves exact indexes, whether or not the id was there.
  pub update-IsIndexed :
      (col id : String) (d : Document) (e e' : Engine S)
      → IsReady col e
      → truthy (field deleted_key d) ≡ false
      → IsIndexed col e
      → update col id d e ≡ ok e'
      → IsIndexed col e'
  unfolding update
  update-IsIndexed col id d e e' ready live (im, p, exact) h =
      let (im', ls, p', q, r) = locked col e _ h in
      let (old, s, t) = call_returned (Store.get id (file_of col e)) _ r in
      let all : IsExact (holdings col e) im'.indexes =
        subst (λ m. IsExact (holdings col e) m.indexes) (some-injective (sym p ∙ p')) exact in
      let now : holdings col e id ≡ with_id? id old =
        rw (get_opened col id e im' ls p' q, ← q, s) refl in
      (
        Im.on_update id (with_id? id old) (with_id id d) im',
        rw (← ok-injective t) (manager-write_back col _ _ e),
        rw (← now) (
            on_update-IsExact id (with_id id d) (with_id id (strip_id d)) (holdings col e)
              (holdings col e') im' (key_of-with_id id d)
              (written col id d e e' ready live (λ c j. get-update col c id j d e e' h)) all),
      )

  -- In a collection that can be read and whose indexes are exact, a successful `delete` leaves
  -- exact indexes, whether or not the id was there.
  pub delete-IsIndexed :
      (col id : String) (e e' : Engine S)
      → IsReady col e
      → IsIndexed col e
      → delete col id e ≡ ok e'
      → IsIndexed col e'
  unfolding delete
  delete-IsIndexed col id e e' ready (im, p, exact) h =
      let (im', ls, p', q, r) = locked col e _ h in
      let (old, s, t) = call_returned (Store.get id (file_of col e)) _ r in
      let all : IsExact (holdings col e) im'.indexes =
        subst (λ m. IsExact (holdings col e) m.indexes) (some-injective (sym p ∙ p')) exact in
      let now : holdings col e id ≡ with_id? id old =
        rw (get_opened col id e im' ls p' q, ← q, s) refl in
      (
        Im.on_delete id (with_id? id old) im',
        rw (← ok-injective t) (manager-write_back col _ _ e),
        rw (← now) (
            on_delete-IsExact id (holdings col e) (holdings col e') im'
              (IsOverwrite-IsChange col id none e e' ready (λ c j. get-delete col c id j e e' h))
              all),
      )

  -- In a collection with exact indexes, a successful `lookup` of a field that has an index yields
  -- the id of each document that reads return and whose field has the text of the value, once, and
  -- no other id.
  pub lookup-IsIndexed :
      (col f : String) (v : Value) (e : Engine S) (ids : List String)
      → (x : IsIndexed col e) → Im.has_index_for f x.0 ≡ true
      → lookup col f v e ≡ ok ids
      → (j : String) → count j ids ≡ (if has_text f (to_str v) (holdings col e j) then 1 else 0)
  unfolding lookup require
  lookup-IsIndexed col f v e ids (im, p, exact) has h j =
      let r : Im.lookup f v im ≡ ids = ok-injective (ground (arith)) in
      rw (← r) (lookup-IsExact f v (holdings col e) im exact has j)
