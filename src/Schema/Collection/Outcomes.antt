-- ===== src/Schema/Collection/Outcomes.antt =====
-- Which documents `insert` takes: a document with free unique values and present parents is stored,
-- one whose value for a unique field is taken is refused.
use text.Mathlib.Text.{◌==◌ as str_eq}
use text.Mathlib.TextPositions.{eq_refl}
use jsonpy_sql.Prelude.{
  ◌≡◌, refl, sym, ◌∙◌, ap, subst, String, Bool, true, false, not, Option, none, some, List, [], ◌∷◌,
  arith, eq_iff, ◌&&◌, ◌||◌, if◌then◌else◌, Bool-cases, inl, inr, All,
}
use jsonpy_sql.Python.Dict.{Dict, string_key}
use jsonpy_sql.Python.Value.{is_none, truthy, to_str, Document, field}
use jsonpy_sql.Python.Result.{Result, ok, err, unique_constraint_error, ◌>>=◌}
use jsonpy_sql.Storage.SortedDict.{SortedDict}
use jsonpy_sql.Storage.DocumentStore as Store
use jsonpy_sql.Storage.DocumentStore.{deleted_key, strip_id}
use jsonpy_sql.Storage.DocumentStore.Reads.{visible}
use jsonpy_sql.Storage.IndexManager as Im
use jsonpy_sql.Storage.IndexManager.{IndexManager, str_mem, count, has_index_for}
use jsonpy_sql.Storage.IndexManager.Queries.{has_text}
use jsonpy_sql.Storage.Engine as Engine
use jsonpy_sql.Storage.Engine.{Engine, get, lookup, file_of, require, lock, ids_equal}
use jsonpy_sql.Storage.Engine.Documents.{IsReady, opened, overwrite, get-insert}
use jsonpy_sql.Storage.Engine.Indexed.{IsIndexed, holdings, lookup-IsIndexed}
use jsonpy_sql.Storage.Engine.Lookups.{lookup_returns}
use jsonpy_sql.Storage.Engine.Declared.{has_index, found_index}
use jsonpy_sql.Schema.Fields.{Pydantic, validate}
use jsonpy_sql.Schema.Constraints.{
  Checker, check_insert, raise_if_any, parent_found, check_children, check_child_insert,
  assert_parent_exists,
}
use jsonpy_sql.Schema.Collection.{
  SchemaCollection, extract_or_generate_id, insert, register_fk_reverse,
}
use jsonpy_sql.Schema.Collection.Reverse.{register_keys-SameDocuments}
use jsonpy_sql.Schema.Collection.References.{is_there, refers}

nothing_counted : (ids : List String) → ((j : String) → count j ids ≡ 0) → ids ≡ []
nothing_counted [] h = refl
nothing_counted (x ∷ ids) h = absurd (ground (arith, h x, eq_refl x))

counted_once :
    (j : String) (ids : List String) (rest : Result (Unit {0}))
    → count j ids ≡ 1
    → raise_if_any ids rest ≡ err unique_constraint_error
counted_once j [] rest h = absurd (omega (arith, h))
counted_once j (_ ∷ _) rest h = refl

refused_later :
    (ids : List String) (rest : Result (Unit {0}))
    → rest ≡ err unique_constraint_error
    → raise_if_any ids rest ≡ err unique_constraint_error
refused_later [] rest h = h
refused_later (_ ∷ _) rest h = refl

there_passes :
    (b : Bool) (r : Result (Option Document))
    → (b || is_there r) ≡ true
    → (if b then ok tt else (r >>= λ parent. parent_found parent)) ≡ ok tt
there_passes true r h = refl
there_passes false (ok (some d)) h = refl
there_passes false (ok none) h = absurd (cc)
there_passes false (err x) h = absurd (cc)

module _ {S : Type 0} ⦃sd : SortedDict S⦄ where
  -- No document has the text of this one's value for a unique field.
  abbrev pub IsUnused : String → Document → String → Engine S → Type 0
  IsUnused f d col e =
      (j : String)
      → (not (is_none (field f d)) && has_text f (to_str (field f d)) (holdings col e j)) ≡ false

  found_unused :
      (col f : String) (d : Document) (e : Engine S) (ids : List String)
      → (x : IsIndexed col e) → has_index col f e ≡ true
      → is_none (field f d) ≡ false
      → IsUnused f d col e
      → lookup col f (field f d) e ≡ ok ids
      → ids ≡ []
  found_unused col f d e ids x has key unused found = nothing_counted ids (λ j. ground (
    arith,
    unused j,
    lookup-IsIndexed col f (field f d) e ids x (sym (found_index col f e x.0 x.1) ∙ has) found j,
  ))

  -- The check passes where each unique field has an index and its value is unused.
  check_passes :
      (col : String) (fs : List String) (d : Document) (e : Engine S)
      → IsReady col e
      → IsIndexed col e
      → All (λ f. (has_index col f e ≡ true) × IsUnused f d col e) fs
      → check_insert col fs d e ≡ ok tt
  unfolding check_insert
  check_passes col [] d e ready x h = refl
  check_passes col (f ∷ fs) d e ready x ((has, unused), h) =
      let rest : check_insert col fs d e ≡ ok tt = check_passes col fs d e ready x h in
      elim (Bool-cases (is_none (field f d))) [
        | inl q ↦ rw q rest
        | inr q ↦
            let (ids, found) = lookup_returns col f (field f d) e ready in
            rw (q, found, found_unused col f d e ids x has q unused found) rest
      ]

  -- The check refuses a document whose value for a unique field is taken.
  check_refuses :
      (col f j : String) (fs : List String) (d : Document) (e : Engine S)
      → IsReady col e
      → IsIndexed col e
      → has_index col f e ≡ true
      → str_mem f fs ≡ true
      → is_none (field f d) ≡ false
      → has_text f (to_str (field f d)) (holdings col e j) ≡ true
      → check_insert col fs d e ≡ err unique_constraint_error
  unfolding check_insert
  check_refuses col f j [] d e ready x has m key taken = absurd (cc)
  check_refuses col f j (g ∷ fs) d e ready x has m key taken =
      let rest = check_insert col fs d e in
      elim (Bool-cases (str_eq g f)) [
        | inl q ↦
            let (ids, found) = lookup_returns col f (field f d) e ready in
            let once : count j ids ≡ 1 =
              lookup-IsIndexed col f (field f d) e ids x (sym (found_index col f e x.0 x.1) ∙ has)
                found j
              ∙ rw taken refl in
            subst
              (λ h.
                (if is_none (field h d)
                  then rest
                  else (lookup col h (field h d) e >>= λ existing. raise_if_any existing rest))
                ≡ err unique_constraint_error)
              (sym ((eq_iff g f).0 q)) (rw (key, found) (counted_once j ids rest once))
        | inr q ↦
            let later : rest ≡ err unique_constraint_error =
              check_refuses col f j fs d e ready x has (ground arith) key taken in
            let (ids, found) = lookup_returns col g (field g d) e ready in
            elim (Bool-cases (is_none (field g d))) [
              | inl t ↦ rw t later
              | inr t ↦ rw (t, found) (refused_later ids rest later)
            ]
      ]

  -- A check of references passes where each of them does.
  children_pass :
      (checkers : Dict String Checker) (d : Document) (e : Engine S)
      → All (λ x. refers x.1 e (some d) ≡ true) checkers
      → check_children checkers d e ≡ ok tt
  unfolding check_children check_child_insert assert_parent_exists
  children_pass [] d e h = refl
  children_pass ((f, checker) ∷ checkers) d e (here, h) =
      rw
        (there_passes (is_none (field checker.fk_field d))
          (get checker.parent_collection (to_str (field checker.fk_field d)) e) here)
        (children_pass checkers d e h)

  insert_returns :
      (col id : String) (d : Document) (e : Engine S)
      → IsReady col e
      → (e' : Engine S) × (Engine.insert col id d e ≡ ok e')
  unfolding Engine.insert require lock
  insert_returns col id d e ready =
      let (im, ls, p, q, r) = opened col "" e (ready "").1 in
      (
        Engine.write_back col (Store.append id d (file_of col e))
            (Im.on_insert id (Engine.with_id id d) im) e,
        rw (p, q, ← q) refl,
      )

module _ {S : Type 0} {M : Type 0} ⦃sd : SortedDict S⦄ ⦃pyd : Pydantic M⦄ where
  -- In a collection that can be read and has exact indexes, `insert` of a document that is valid,
  -- that has for each unique field an index and a value that no document has, that by each foreign
  -- key refers to a parent that is there, and whose validated form has no true `_deleted` field,
  -- returns the id; then a read of that id returns the validated document, less an `_id` field, and
  -- the other reads of the collection are as before.
  pub insert-returns :
      (c : SchemaCollection M) (gen j : String) (d v : Document) (e : Engine S)
      → IsReady c.name e
      → IsIndexed c.name e
      → validate c.model d ≡ ok v
      → All (λ f. (has_index c.name f e ≡ true) × IsUnused f v c.name e) c.unique_fields
      → All (λ x. refers x.1 e (some v) ≡ true) c.fk_checkers
      → truthy (field deleted_key v) ≡ false
      → (e' : Engine S) × (insert gen d c e ≡ ok (extract_or_generate_id c.pk_field gen v, e'))
        × (get c.name j e' ≡ (
            if str_eq (extract_or_generate_id c.pk_field gen v) j
            then ok (some (strip_id v))
            else get c.name j e))
  unfolding insert visible
  insert-returns c gen j d v e ready x valid unused held live =
      let id = extract_or_generate_id c.pk_field gen v in
      let (e1, ins) = insert_returns c.name id v e ready in
      let e' = register_fk_reverse c id v e1 in
      let read : (i : String) → get c.name i e' ≡ overwrite id (visible v) i (get c.name i e) = λ i.
        (register_keys-SameDocuments c.name c.fk_meta id v e1).0 c.name i
        ∙ get-insert c.name c.name id i v e e1 ins
        ∙ rw (eq_refl c.name) refl in
      (
        e',
        rw
            (
              valid,
              check_passes c.name c.unique_fields v e ready x unused,
              children_pass c.fk_checkers v e held,
              ins,
            )
            refl,
        read j
            ∙ ap (overwrite id (visible v) j) (ready j).1
            ∙ rw (live, (ready j).1) (ground arith),
      )

  -- In a collection that can be read and has exact indexes, `insert` of a valid document with a value
  -- for a unique, indexed field whose text some document has there raises `UniqueConstraintError`.
  pub insert-refuses :
      (c : SchemaCollection M) (f gen j : String) (d v : Document) (e : Engine S)
      → IsReady c.name e
      → IsIndexed c.name e
      → has_index c.name f e ≡ true
      → str_mem f c.unique_fields ≡ true
      → validate c.model d ≡ ok v
      → is_none (field f v) ≡ false
      → has_text f (to_str (field f v)) (holdings c.name e j) ≡ true
      → insert gen d c e ≡ err unique_constraint_error
  unfolding insert
  insert-refuses c f gen j d v e ready x has unique valid key taken =
      rw (valid, check_refuses c.name f j c.unique_fields v e ready x has unique key taken) refl
