-- ===== src/Schema/Collection/Sound.antt =====
-- When a unique field of a collection is sound, and the engine's writes that keep it so.
use text.Mathlib.Text.{◌==◌ as str_eq}
use jsonpy_sql.Prelude.{◌≡◌, sym, ◌∙◌, subst, String, true, false, none}
use jsonpy_sql.Python.Dict.{string_key}
use jsonpy_sql.Python.Value.{truthy, Document, field}
use jsonpy_sql.Python.Result.{ok}
use jsonpy_sql.Storage.SortedDict.{SortedDict}
use jsonpy_sql.Storage.DocumentStore.{id_key, deleted_key, strip_id}
use jsonpy_sql.Storage.DocumentStore.Reads.{visible}
use jsonpy_sql.Storage.IndexManager.{has_index_for}
use jsonpy_sql.Storage.Engine as Engine
use jsonpy_sql.Storage.Engine.{Engine, with_id}
use jsonpy_sql.Storage.Engine.Documents.{IsReady, get-insert, get-update, get-delete}
use jsonpy_sql.Storage.Engine.Entries.{IsOverwrite, IsOverwrite-IsReady}
use jsonpy_sql.Storage.Engine.Indexed.{
  IsIndexed, IsOverwrite-IsChange, written, holdings, insert-IsIndexed, update-IsIndexed,
  delete-IsIndexed,
}
use jsonpy_sql.Storage.Engine.Declared.{
  has_index, found_index, has_index-insert, has_index-update, has_index-delete,
}
use jsonpy_sql.Schema.Collection.Reverse.{
  SameDocuments, SameDocuments-IsReady, SameDocuments-IsIndexed, SameDocuments-holdings,
}
use jsonpy_sql.Schema.Collection.Unique.{
  NoClash, IsFree, field-written, change-NoClash, remove-NoClash,
}

module _ {S : Type 0} ⦃sd : SortedDict S⦄ where
  -- The collection can be read, its indexes are exact, the field has one, and no two documents
  -- clash in the field.
  abbrev pub IsSound : String → String → Engine S → Type 0
  IsSound col f e =
      IsReady col e × IsIndexed col e × (has_index col f e ≡ true) × NoClash f (holdings col e)

  SameDocuments-has_index :
      (col f : String) (e e' : Engine S)
      → SameDocuments e e'
      → IsIndexed col e
      → has_index col f e ≡ true
      → has_index col f e' ≡ true
  unfolding has_index_for
  SameDocuments-has_index col f e e' p (im, h, _) has =
      let (im', h', x) = p.1 col im h in rw (h', x) (sym (found_index col f e im h) ∙ has)

  pub SameDocuments-IsSound :
      (col f : String) (e e' : Engine S) → SameDocuments e e' → IsSound col f e → IsSound col f e'
  SameDocuments-IsSound col f e e' p (ready, indexed, has, apart) = (
    SameDocuments-IsReady col e e' p ready,
    SameDocuments-IsIndexed col e e' p indexed,
    SameDocuments-has_index col f e e' p indexed has,
    subst (NoClash f) (sym (SameDocuments-holdings col e e' p)) apart,
  )

  -- The engine's `insert` of a new id, where the value for the field is free.
  pub engine_insert-IsSound :
      (col f id : String) (d : Document) (e e' : Engine S)
      → str_eq id_key f ≡ false
      → truthy (field deleted_key d) ≡ false
      → Engine.get col id e ≡ ok none
      → IsFree f id d (holdings col e)
      → IsSound col f e
      → Engine.insert col id d e ≡ ok e'
      → IsSound col f e'
  engine_insert-IsSound col f id d e e' key live new free (ready, indexed, has, apart) h =
      let w : IsOverwrite col id (visible d) e e' = λ c j. get-insert col c id j d e e' h in
      (
        IsOverwrite-IsReady col id col (visible d) e e' w ready,
        insert-IsIndexed col id d e e' ready new live indexed h,
        has_index-insert col col f id d e e' h ∙ has,
        change-NoClash f id d (with_id id (strip_id d)) (holdings col e) (holdings col e')
            (field-written f id d key) (written col id d e e' ready live w) free apart,
      )

  -- The engine's `update`, where the value for the field is free but for the id.
  pub engine_update-IsSound :
      (col f id : String) (d : Document) (e e' : Engine S)
      → str_eq id_key f ≡ false
      → truthy (field deleted_key d) ≡ false
      → IsFree f id d (holdings col e)
      → IsSound col f e
      → Engine.update col id d e ≡ ok e'
      → IsSound col f e'
  engine_update-IsSound col f id d e e' key live free (ready, indexed, has, apart) h =
      let w : IsOverwrite col id (visible d) e e' = λ c j. get-update col c id j d e e' h in
      (
        IsOverwrite-IsReady col id col (visible d) e e' w ready,
        update-IsIndexed col id d e e' ready live indexed h,
        has_index-update col col f id d e e' h ∙ has,
        change-NoClash f id d (with_id id (strip_id d)) (holdings col e) (holdings col e')
            (field-written f id d key) (written col id d e e' ready live w) free apart,
      )

  pub engine_delete-IsSound :
      (col f id : String) (e e' : Engine S)
      → IsSound col f e
      → Engine.delete col id e ≡ ok e'
      → IsSound col f e'
  engine_delete-IsSound col f id e e' (ready, indexed, has, apart) h =
      let w : IsOverwrite col id none e e' = λ c j. get-delete col c id j e e' h in
      (
        IsOverwrite-IsReady col id col none e e' w ready,
        delete-IsIndexed col id e e' ready indexed h,
        has_index-delete col col f id e e' h ∙ has,
        remove-NoClash f id (holdings col e) (holdings col e')
            (IsOverwrite-IsChange col id none e e' ready w) apart,
      )
