-- ===== src/Schema/Collection/Runs.antt =====
-- A schema collection under any sequence of its writes.
use text.Mathlib.Text.{◌==◌ as str_eq}
use jsonpy_sql.Prelude.{◌≡◌, sym, ◌∙◌, subst, String, true, false, Option, none, some}
use jsonpy_sql.Python.Dict.{string_key}
use jsonpy_sql.Python.Value.{truthy, Document, field}
use jsonpy_sql.Python.Result.{ok, ok-injective, call_returned}
use jsonpy_sql.Storage.SortedDict.{SortedDict}
use jsonpy_sql.Storage.DocumentStore.{id_key, deleted_key}
use jsonpy_sql.Storage.IndexManager.{str_mem}
use jsonpy_sql.Storage.Engine as Engine
use jsonpy_sql.Storage.Engine.{Engine, with_id}
use jsonpy_sql.Storage.Engine.Indexed.{holdings}
use jsonpy_sql.Storage.Engine.Declared.{found_index}
use jsonpy_sql.Schema.Fields.{Pydantic, validate}
use jsonpy_sql.Schema.Collection.{
  SchemaCollection, register_fk_reverse, unregister_fk_reverse, unregister_if, insert, update,
  delete,
}
use jsonpy_sql.Schema.Collection.Reverse.{
  SameDocuments, SameDocuments-holdings, register_keys-SameDocuments, unregister_keys-SameDocuments,
}
use jsonpy_sql.Schema.Collection.Unique.{IsFree, check_insert-IsFree, check_update-IsFree}
use jsonpy_sql.Schema.Collection.Sound.{
  IsSound, SameDocuments-IsSound, engine_insert-IsSound, engine_update-IsSound,
  engine_delete-IsSound,
}
use jsonpy_sql.Schema.Collection.Parts.{insert_parts, update_parts, valid_live}

module _ {S : Type 0} {M : Type 0} ⦃sd : SortedDict S⦄ where
  unregistered :
      (c : SchemaCollection M) (f id : String) (o : Option Document) (e : Engine S)
      → IsSound c.name f e
      → IsSound c.name f (unregister_if c id o e)
  unregistered c f id none e sound = sound
  unregistered c f id (some d) e sound =
      SameDocuments-IsSound c.name f e (unregister_fk_reverse c id d e)
        (unregister_keys-SameDocuments c.name c.fk_meta id d e) sound

module _ {S : Type 0} {M : Type 0} ⦃sd : SortedDict S⦄ ⦃pyd : Pydantic M⦄ where
  -- A successful `insert` of a new id keeps a unique field sound.
  pub insert-IsSound :
      (c : SchemaCollection M) (f gen id : String) (d v : Document) (e e' : Engine S)
      → str_mem f c.unique_fields ≡ true
      → str_eq id_key f ≡ false
      → validate c.model d ≡ ok v
      → truthy (field deleted_key v) ≡ false
      → Engine.get c.name id e ≡ ok none
      → IsSound c.name f e
      → insert gen d c e ≡ ok (id, e')
      → IsSound c.name f e'
  insert-IsSound c f gen id d v e e' unique key valid live new sound h =
      let (v1, e1, a, checked, _, _, ins, r) = insert_parts c gen id d e e' h in
      let (_, indexed, has, _) = sound in
      let free : IsFree f id v1 (holdings c.name e) =
        check_insert-IsFree c.name f id c.unique_fields v1 e indexed
          (sym (found_index c.name f e indexed.0 indexed.1) ∙ has) unique checked in
      subst (IsSound c.name f) r (
        SameDocuments-IsSound c.name f e1 (register_fk_reverse c id v1 e1)
          (register_keys-SameDocuments c.name c.fk_meta id v1 e1)
          (engine_insert-IsSound c.name f id v1 e e1 key (valid_live c.model d v v1 valid a live)
            new free sound ins))

  -- A successful `update` keeps a unique field sound.
  pub update-IsSound :
      (c : SchemaCollection M) (f id : String) (d v : Document) (e e' : Engine S)
      → str_mem f c.unique_fields ≡ true
      → str_eq id_key f ≡ false
      → validate c.model d ≡ ok v
      → truthy (field deleted_key v) ≡ false
      → IsSound c.name f e
      → update id d c e ≡ ok e'
      → IsSound c.name f e'
  update-IsSound c f id d v e e' unique key valid live sound h =
      let (v1, old, e1, a, _, checked, _, up, r) = update_parts c id d e e' h in
      let (_, indexed, has, _) = sound in
      let free : IsFree f id v1 (holdings c.name e) =
        check_update-IsFree c.name f id c.unique_fields v1 e indexed
          (sym (found_index c.name f e indexed.0 indexed.1) ∙ has) unique checked in
      let e0 = unregister_fk_reverse c id old e in
      let p : SameDocuments e e0 = unregister_keys-SameDocuments c.name c.fk_meta id old e in
      subst (IsSound c.name f) r (
        SameDocuments-IsSound c.name f e1 (register_fk_reverse c id v1 e1)
          (register_keys-SameDocuments c.name c.fk_meta id v1 e1)
          (engine_update-IsSound c.name f id v1 e0 e1 key (valid_live c.model d v v1 valid a live)
            (subst (IsFree f id v1) (sym (SameDocuments-holdings c.name e e0 p)) free)
            (SameDocuments-IsSound c.name f e e0 p sound) up))

  -- A successful `delete` keeps a unique field sound.
  pub delete-IsSound :
      (c : SchemaCollection M) (f id : String) (e e' : Engine S)
      → IsSound c.name f e
      → delete id c e ≡ ok e'
      → IsSound c.name f e'
  unfolding delete
  delete-IsSound c f id e e' sound h =
      let (o, _, h1) = call_returned (Engine.get c.name id e) _ h in
      let (e1, del, h2) = call_returned (Engine.delete c.name id e) _ h1 in
      subst (IsSound c.name f) (ok-injective h2)
        (unregistered c f id o e1 (engine_delete-IsSound c.name f id e e1 sound del))

  -- One write of a collection that returns: an `insert` of a new id, an `update` or a `delete`, with
  -- documents that are not marked deleted.
  pub data Step (c : SchemaCollection M) : Engine S → Engine S → Type 0 where
    inserted :
        (gen id : String) (d v : Document) (e e' : Engine S)
        → validate c.model d ≡ ok v
        → truthy (field deleted_key v) ≡ false
        → Engine.get c.name id e ≡ ok none
        → insert gen d c e ≡ ok (id, e')
        → Step c e e'
    updated :
        (id : String) (d v : Document) (e e' : Engine S)
        → validate c.model d ≡ ok v
        → truthy (field deleted_key v) ≡ false
        → update id d c e ≡ ok e'
        → Step c e e'
    deleted : (id : String) (e e' : Engine S) → delete id c e ≡ ok e' → Step c e e'

  pub data Run (c : SchemaCollection M) : Engine S → Engine S → Type 0 where
    stay : (e : Engine S) → Run c e e
    after : (e e1 e2 : Engine S) → Run c e e1 → Step c e1 e2 → Run c e e2

  Step-IsSound :
      (c : SchemaCollection M) (f : String) (e e' : Engine S)
      → str_mem f c.unique_fields ≡ true
      → str_eq id_key f ≡ false
      → IsSound c.name f e
      → Step c e e'
      → IsSound c.name f e'
  Step-IsSound c f e e' unique key sound (inserted gen id d v _ _ valid live new h) =
      insert-IsSound c f gen id d v e e' unique key valid live new sound h
  Step-IsSound c f e e' unique key sound (updated id d v _ _ valid live h) =
      update-IsSound c f id d v e e' unique key valid live sound h
  Step-IsSound c f e e' unique key sound (deleted id _ _ h) = delete-IsSound c f id e e' sound h

  -- In a collection that is sound for a unique field other than `_id`, any sequence of writes that
  -- return, in which each `insert` has a new id and no document is marked deleted, leaves the
  -- collection sound: it can be read, its indexes are exact, the field has one, and no two documents
  -- under different ids have values for the field with the same text.
  pub Run-IsSound :
      (c : SchemaCollection M) (f : String) (e e' : Engine S)
      → str_mem f c.unique_fields ≡ true
      → str_eq id_key f ≡ false
      → IsSound c.name f e
      → Run c e e'
      → IsSound c.name f e'
  Run-IsSound c f e e' unique key sound (stay _) = sound
  Run-IsSound c f e e' unique key sound (after _ e1 _ run step) =
      Step-IsSound c f e1 e' unique key (Run-IsSound c f e e1 unique key sound run) step
