-- ===== src/Schema/Collection/Deletes.antt =====
-- What the deletion of a document leaves behind in the collections that refer to it.
use text.Mathlib.Text.{◌==◌ as str_eq}
use text.Mathlib.TextPositions.{eq_refl}
use jsonpy_sql.Prelude.{◌≡◌, refl, String, false, Option, none, some}
use jsonpy_sql.Python.Dict.{string_key}
use jsonpy_sql.Python.Value.{is_none, to_str, Document, field}
use jsonpy_sql.Python.Result.{ok}
use jsonpy_sql.Storage.SortedDict.{SortedDict}
use jsonpy_sql.Storage.DocumentStore as Store
use jsonpy_sql.Storage.IndexManager as Im
use jsonpy_sql.Storage.Engine as Engine
use jsonpy_sql.Storage.Engine.{Engine, file_of, require, lock}
use jsonpy_sql.Storage.Engine.Documents.{IsReady, opened, get-delete}
use jsonpy_sql.Storage.Engine.Indexed.{holdings}
use jsonpy_sql.Schema.Constraints.{Checker}
use jsonpy_sql.Schema.Collection.{SchemaCollection, unregister_if, delete}
use jsonpy_sql.Schema.Collection.Reverse.{SameDocuments, same, unregister_keys-SameDocuments}
use jsonpy_sql.Schema.Collection.References.{refers}

module _ {S : Type 0} ⦃sd : SortedDict S⦄ where
  -- In a collection that can be read the engine's `delete` returns.
  delete_returns :
      (col id : String) (e : Engine S)
      → IsReady col e
      → (e' : Engine S) × (Engine.delete col id e ≡ ok e')
  unfolding Engine.delete require lock
  delete_returns col id e ready =
      let (im, ls, p, q, r) = opened col id e (ready id).1 in
      (
        Engine.write_back col (Store.tombstone id (file_of col e))
            (Im.on_delete id (Engine.with_id? id (ready id).0) im) e,
        rw (p, q, ← q, r) refl,
      )

module _ {S : Type 0} {M : Type 0} ⦃sd : SortedDict S⦄ where
  unregister-SameDocuments :
      (c : SchemaCollection M) (id : String) (o : Option Document) (e : Engine S)
      → SameDocuments e (unregister_if c id o e)
  unregister-SameDocuments c id none e = same e
  unregister-SameDocuments c id (some d) e = unregister_keys-SameDocuments c.name c.fk_meta id d e

  -- `delete` returns in a collection that can be read, and a document of another collection whose
  -- foreign key refers to the deleted one stays as it is: its parent is then not found, whatever
  -- the `on_delete` of the key says.
  pub delete-dangling :
      (c : SchemaCollection M) (checker : Checker) (col id j : String) (child : Document)
      (e : Engine S)
      → str_eq c.name col ≡ false
      → checker.parent_collection ≡ c.name
      → IsReady c.name e
      → holdings col e j ≡ some child
      → is_none (field checker.fk_field child) ≡ false
      → to_str (field checker.fk_field child) ≡ id
      → (e' : Engine S) × (delete id c e ≡ ok e')
        × (holdings col e' j ≡ some child)
        × (refers checker e' (some child) ≡ false)
  unfolding delete
  delete-dangling c checker col id j child e apart parent ready held key refers_to =
      let (o, got) = ready id in
      let (e1, del) = delete_returns c.name id e ready in
      let same : SameDocuments e1 (unregister_if c id o e1) = unregister-SameDocuments c id o e1 in
      (
        unregister_if c id o e1,
        rw (got, del) refl,
        rw (same.0 col j, get-delete c.name col id j e e1 del, apart) held,
        rw
            (
              key,
              same.0,
              parent,
              refers_to,
              get-delete c.name c.name id id e e1 del,
              eq_refl c.name,
              eq_refl id,
              got,
            )
            refl,
      )
