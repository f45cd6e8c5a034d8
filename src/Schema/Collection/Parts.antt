-- ===== src/Schema/Collection/Parts.antt =====
-- What a write of a schema collection that returns has done.
use jsonpy_sql.Prelude.{◌≡◌, sym, ◌∙◌, ap, subst, String, false, Option, none, some}
use jsonpy_sql.Python.Dict.{string_key}
use jsonpy_sql.Python.Value.{truthy, Document, field}
use jsonpy_sql.Python.Result.{ok, ok-injective, call_returned}
use jsonpy_sql.Storage.SortedDict.{SortedDict}
use jsonpy_sql.Storage.DocumentStore.{deleted_key}
use jsonpy_sql.Storage.Engine as Engine
use jsonpy_sql.Storage.Engine.{Engine, with_id}
use jsonpy_sql.Schema.Fields.{Pydantic, validate}
use jsonpy_sql.Schema.Constraints.{check_insert, check_update, check_children}
use jsonpy_sql.Schema.Collection.{
  SchemaCollection, extract_or_generate_id, register_fk_reverse, unregister_fk_reverse, or_missing,
  insert, update,
}

or_missing-some : (o : Option Document) (d : Document) → or_missing o ≡ ok d → o ≡ some d
or_missing-some none d h = absurd (cc)
or_missing-some (some x) d h = ap some (ok-injective h)

module _ {S : Type 0} {M : Type 0} ⦃sd : SortedDict S⦄ ⦃pyd : Pydantic M⦄ where
  -- What an `insert` that returns has done.
  pub insert_parts :
      (c : SchemaCollection M) (gen id : String) (d : Document) (e e' : Engine S)
      → insert gen d c e ≡ ok (id, e')
      → (v : Document) × (e1 : Engine S) × (validate c.model d ≡ ok v)
        × (check_insert c.name c.unique_fields v e ≡ ok tt)
        × (check_children c.fk_checkers v e ≡ ok tt)
        × (extract_or_generate_id c.pk_field gen v ≡ id)
        × (Engine.insert c.name id v e ≡ ok e1)
        × (register_fk_reverse c id v e1 ≡ e')
  unfolding insert
  insert_parts c gen id d e e' h =
      let (v, a, h1) = call_returned (validate c.model d) _ h in
      let (_, checked, h2) = call_returned (check_insert c.name c.unique_fields v e) _ h1 in
      let (_, held, h3) = call_returned (check_children c.fk_checkers v e) _ h2 in
      let doc_id = extract_or_generate_id c.pk_field gen v in
      let (e1, ins, h4) = call_returned (Engine.insert c.name doc_id v e) _ h3 in
      let same_id : doc_id ≡ id = ap (λ (p : String × Engine S). p.0) (ok-injective h4) in
      (
        v,
        e1,
        a,
        checked,
        held,
        same_id,
        subst (λ i. Engine.insert c.name i v e ≡ ok e1) same_id ins,
        subst (λ i. register_fk_reverse c i v e1 ≡ e') same_id
            (ap (λ (p : String × Engine S). p.1) (ok-injective h4)),
      )

  -- What an `update` that returns has done.
  pub update_parts :
      (c : SchemaCollection M) (id : String) (d : Document) (e e' : Engine S)
      → update id d c e ≡ ok e'
      → (v old : Document) × (e1 : Engine S) × (validate c.model d ≡ ok v)
        × (Engine.get c.name id e ≡ ok (some old))
        × (check_update c.name c.unique_fields id v e ≡ ok tt)
        × (check_children c.fk_checkers v e ≡ ok tt)
        × (Engine.update c.name id v (unregister_fk_reverse c id old e) ≡ ok e1)
        × (register_fk_reverse c id v e1 ≡ e')
  unfolding update
  update_parts c id d e e' h =
      let (v, a, h1) = call_returned (validate c.model d) _ h in
      let (o, got, h2) = call_returned (Engine.get c.name id e) _ h1 in
      let (old, there, h3) = call_returned (or_missing o) _ h2 in
      let (_, checked, h4) = call_returned (check_update c.name c.unique_fields id v e) _ h3 in
      let (_, held, h5) = call_returned (check_children c.fk_checkers v e) _ h4 in
      let e0 = unregister_fk_reverse c id old e in
      let (e1, up, h6) = call_returned (Engine.update c.name id v e0) _ h5 in
      (v, old, e1, a, got ∙ ap ok (or_missing-some o old there), checked, held, up, ok-injective h6)

module _ {M : Type 0} ⦃pyd : Pydantic M⦄ where
  pub valid_live :
      (model : M) (d v v1 : Document)
      → validate model d ≡ ok v
      → validate model d ≡ ok v1
      → truthy (field deleted_key v) ≡ false
      → truthy (field deleted_key v1) ≡ false
  valid_live model d v v1 p q live =
      subst (λ x. truthy (field deleted_key x) ≡ false) (ok-injective (sym p ∙ q)) live
