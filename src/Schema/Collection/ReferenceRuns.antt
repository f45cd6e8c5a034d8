-- ===== src/Schema/Collection/ReferenceRuns.antt =====
-- A schema collection with a foreign key under any sequence of its writes.
use text.Mathlib.Text.{◌==◌ as str_eq}
use jsonpy_sql.Prelude.{
  ◌≡◌, refl, ◌∙◌, subst, String, true, false, Option, none, some, Bool-cases, inl, inr,
}
use jsonpy_sql.Python.Dict as D
use jsonpy_sql.Python.Dict.{Dict, string_key}
use jsonpy_sql.Python.Value.{truthy, to_str, Document, field}
use jsonpy_sql.Python.Result.{ok, ok-injective, call_returned}
use jsonpy_sql.Storage.SortedDict.{SortedDict}
use jsonpy_sql.Storage.DocumentStore.{id_key, deleted_key}
use jsonpy_sql.Storage.DocumentStore.Reads.{visible}
use jsonpy_sql.Storage.Engine as Engine
use jsonpy_sql.Storage.Engine.{Engine, with_id, file_of, require, lock}
use jsonpy_sql.Storage.Engine.Documents.{IsReady, get-insert, get-update, get-delete}
use jsonpy_sql.Storage.Engine.Entries.{IsOverwrite}
use jsonpy_sql.Storage.Engine.Indexed.{holdings}
use jsonpy_sql.Schema.Fields.{Pydantic, validate}
use jsonpy_sql.Schema.Constraints.{Checker}
use jsonpy_sql.Schema.Collection.{
  SchemaCollection, register_fk_reverse, unregister_fk_reverse, unregister_if, insert, update,
  delete,
}
use jsonpy_sql.Schema.Collection.Reverse.{
  SameDocuments, SameDocuments-IsReady, register_keys-SameDocuments, unregister_keys-SameDocuments,
}
use jsonpy_sql.Schema.Collection.Parts.{insert_parts, update_parts, valid_live}
use jsonpy_sql.Storage.Engine.Entries.{IsOverwrite-IsReady}
use jsonpy_sql.Storage.Engine.Indexed.{IsOverwrite-IsChange}
use jsonpy_sql.Schema.Collection.References.{
  refers, IsReferring, SameDocuments-refers, SameDocuments-IsReferring, written-IsReferring,
  children_refer,
}
use jsonpy_sql.Schema.Collection.Runs.{Step, inserted, updated, deleted, Run, stay, after}

module _ {S : Type 0} ⦃sd : SortedDict S⦄ where
  -- The collection can be read, and each of its documents refers to a parent that is there.
  abbrev pub IsJoined : Checker → String → Engine S → Type 0
  IsJoined checker col e = IsReady col e × IsReferring checker col e

  SameDocuments-IsJoined :
      (checker : Checker) (col : String) (e e' : Engine S)
      → SameDocuments e e'
      → IsJoined checker col e
      → IsJoined checker col e'
  SameDocuments-IsJoined checker col e e' p (ready, h) =
      (SameDocuments-IsReady col e e' p ready, SameDocuments-IsReferring checker col e e' p h)

  written-IsJoined :
      (checker : Checker) (col id : String) (v : Document) (e e' : Engine S)
      → str_eq id_key checker.fk_field ≡ false
      → truthy (field deleted_key v) ≡ false
      → IsOverwrite col id (visible v) e e'
      → refers checker e (some v) ≡ true
      → IsJoined checker col e
      → IsJoined checker col e'
  written-IsJoined checker col id v e e' key live w here (ready, h) = (
    IsOverwrite-IsReady col id col (visible v) e e' w ready,
    written-IsReferring checker col id v e e' key live ready w here h,
  )

  -- The deletion of a child takes no parent of another collection away.
  deleted-refers :
      (checker : Checker) (col id : String) (e e' : Engine S) (o : Option Document)
      → str_eq col checker.parent_collection ≡ false
      → IsOverwrite col id none e e'
      → refers checker e o ≡ true
      → refers checker e' o ≡ true
  deleted-refers checker col id e e' none apart w h = refl
  deleted-refers checker col id e e' (some d) apart w h =
      rw (w checker.parent_collection (to_str (field checker.fk_field d)), apart) h

  deleted-IsJoined :
      (checker : Checker) (col id : String) (e e' : Engine S)
      → str_eq col checker.parent_collection ≡ false
      → IsOverwrite col id none e e'
      → IsJoined checker col e
      → IsJoined checker col e'
  deleted-IsJoined checker col id e e' apart w (ready, h) = (
    IsOverwrite-IsReady col id col none e e' w ready,
    λ j.
        let change = IsOverwrite-IsChange col id none e e' ready w in
        elim (Bool-cases (str_eq id j)) [
          | inl q ↦ rw (change j, q) refl
          | inr q ↦
              rw (change j, q) (deleted-refers checker col id e e' (holdings col e j) apart w (h j))
        ],
  )

module _ {S : Type 0} {M : Type 0} ⦃sd : SortedDict S⦄ where
  unregistered-IsJoined :
      (c : SchemaCollection M) (checker : Checker) (id : String) (o : Option Document)
      (e : Engine S)
      → IsJoined checker c.name e
      → IsJoined checker c.name (unregister_if c id o e)
  unregistered-IsJoined c checker id none e h = h
  unregistered-IsJoined c checker id (some d) e h =
      SameDocuments-IsJoined checker c.name e (unregister_fk_reverse c id d e)
        (unregister_keys-SameDocuments c.name c.fk_meta id d e) h

module _ {S : Type 0} {M : Type 0} ⦃sd : SortedDict S⦄ ⦃pyd : Pydantic M⦄ where
  insert-IsJoined :
      (c : SchemaCollection M) (f gen id : String) (checker : Checker) (d v : Document)
      (e e' : Engine S)
      → D.get f c.fk_checkers ≡ some checker
      → str_eq id_key checker.fk_field ≡ false
      → validate c.model d ≡ ok v
      → truthy (field deleted_key v) ≡ false
      → IsJoined checker c.name e
      → insert gen d c e ≡ ok (id, e')
      → IsJoined checker c.name e'
  insert-IsJoined c f gen id checker d v e e' m key valid live h r =
      let (v1, e1, a, _, held, _, ins, done) = insert_parts c gen id d e e' r in
      subst (IsJoined checker c.name) done (
        SameDocuments-IsJoined checker c.name e1 (register_fk_reverse c id v1 e1)
          (register_keys-SameDocuments c.name c.fk_meta id v1 e1)
          (written-IsJoined checker c.name id v1 e e1 key (valid_live c.model d v v1 valid a live)
            (λ n j. get-insert c.name n id j v1 e e1 ins)
            (children_refer f checker c.fk_checkers v1 e m held) h))

  update-IsJoined :
      (c : SchemaCollection M) (f id : String) (checker : Checker) (d v : Document)
      (e e' : Engine S)
      → D.get f c.fk_checkers ≡ some checker
      → str_eq id_key checker.fk_field ≡ false
      → validate c.model d ≡ ok v
      → truthy (field deleted_key v) ≡ false
      → IsJoined checker c.name e
      → update id d c e ≡ ok e'
      → IsJoined checker c.name e'
  update-IsJoined c f id checker d v e e' m key valid live h r =
      let (v1, old, e1, a, _, _, held, up, done) = update_parts c id d e e' r in
      let e0 = unregister_fk_reverse c id old e in
      let p : SameDocuments e e0 = unregister_keys-SameDocuments c.name c.fk_meta id old e in
      subst (IsJoined checker c.name) done (
        SameDocuments-IsJoined checker c.name e1 (register_fk_reverse c id v1 e1)
          (register_keys-SameDocuments c.name c.fk_meta id v1 e1)
          (written-IsJoined checker c.name id v1 e0 e1 key (valid_live c.model d v v1 valid a live)
            (λ n j. get-update c.name n id j v1 e0 e1 up)
            (SameDocuments-refers checker e e0 (some v1) p
              ∙ children_refer f checker c.fk_checkers v1 e m held)
            (SameDocuments-IsJoined checker c.name e e0 p h)))

  delete-IsJoined :
      (c : SchemaCollection M) (checker : Checker) (id : String) (e e' : Engine S)
      → str_eq c.name checker.parent_collection ≡ false
      → IsJoined checker c.name e
      → delete id c e ≡ ok e'
      → IsJoined checker c.name e'
  unfolding delete
  delete-IsJoined c checker id e e' apart h r =
      let (o, _, h1) = call_returned (Engine.get c.name id e) _ r in
      let (e1, del, h2) = call_returned (Engine.delete c.name id e) _ h1 in
      subst (IsJoined checker c.name) (ok-injective h2) (
        unregistered-IsJoined c checker id o e1 (
          deleted-IsJoined checker c.name id e e1 apart (λ n j. get-delete c.name n id j e e1 del)
            h))

  Step-IsJoined :
      (c : SchemaCollection M) (f : String) (checker : Checker) (e e' : Engine S)
      → D.get f c.fk_checkers ≡ some checker
      → str_eq id_key checker.fk_field ≡ false
      → str_eq c.name checker.parent_collection ≡ false
      → IsJoined checker c.name e
      → Step c e e'
      → IsJoined checker c.name e'
  Step-IsJoined c f checker e e' m key apart h (inserted gen id d v _ _ valid live new r) =
      insert-IsJoined c f gen id checker d v e e' m key valid live h r
  Step-IsJoined c f checker e e' m key apart h (updated id d v _ _ valid live r) =
      update-IsJoined c f id checker d v e e' m key valid live h r
  Step-IsJoined c f checker e e' m key apart h (deleted id _ _ r) =
      delete-IsJoined c checker id e e' apart h r

  -- In a collection that can be read and of which each document has no value for a foreign key, other
  -- than `_id` and into another collection, or refers by it to a parent that is there, any sequence
  -- of writes of this collection that return, in which each `insert` has a new id and no document is
  -- marked deleted, leaves it so.
  pub Run-IsJoined :
      (c : SchemaCollection M) (f : String) (checker : Checker) (e e' : Engine S)
      → D.get f c.fk_checkers ≡ some checker
      → str_eq id_key checker.fk_field ≡ false
      → str_eq c.name checker.parent_collection ≡ false
      → IsJoined checker c.name e
      → Run c e e'
      → IsJoined checker c.name e'
  Run-IsJoined c f checker e e' m key apart h (stay _) = h
  Run-IsJoined c f checker e e' m key apart h (after _ e1 _ run step) =
      Step-IsJoined c f checker e1 e' m key apart (Run-IsJoined c f checker e e1 m key apart h run)
        step
