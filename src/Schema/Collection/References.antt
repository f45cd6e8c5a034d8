-- ===== src/Schema/Collection/References.antt =====
-- Foreign keys: the writes of a child collection that keep each reference, and the deletion of a
-- parent.
use text.Mathlib.Text.{◌==◌ as str_eq}
use jsonpy_sql.Prelude.{
  ◌≡◌, refl, ◌∙◌, ap, subst, String, Bool, true, false, Option, none, some, [], ◌∷◌, arith, eq_iff,
  ◌||◌, Bool-cases, inl, inr, if◌then◌else◌,
}
use jsonpy_sql.Python.Dict as D
use jsonpy_sql.Python.Dict.{Dict, string_key}
use jsonpy_sql.Python.Value.{truthy, is_none, to_str, Document, field}
use jsonpy_sql.Python.Result.{Result, ok, err, ◌>>=◌, call_returned}
use jsonpy_sql.Storage.SortedDict.{SortedDict}
use jsonpy_sql.Storage.DocumentStore.{id_key, deleted_key, strip_id}
use jsonpy_sql.Storage.DocumentStore.Reads.{visible}
use jsonpy_sql.Storage.Engine as Engine
use jsonpy_sql.Storage.Engine.{Engine, with_id, file_of, require, lock}
use jsonpy_sql.Storage.Engine.Documents.{IsReady, overwrite}
use jsonpy_sql.Storage.Engine.Entries.{IsOverwrite}
use jsonpy_sql.Storage.Engine.Indexed.{written, holdings}
use jsonpy_sql.Schema.Constraints.{
  Checker, parent_found, check_children, check_child_insert, assert_parent_exists,
}
use jsonpy_sql.Schema.Collection.Reverse.{SameDocuments, SameDocuments-holdings}
use jsonpy_sql.Schema.Collection.Unique.{field-written}

-- A read has found a document.
abbrev pub is_there : Result (Option Document) → Bool
is_there (ok (some d)) = true
is_there (ok none) = false
is_there (err x) = false

is_there-overwrite :
    (id k : String) (d : Document) (r : Result (Option Document))
    → is_there r ≡ true
    → is_there (overwrite id (some d) k r) ≡ true
is_there-overwrite id k d (ok (some x)) h = ground arith
is_there-overwrite id k d (ok none) h = absurd (cc)
is_there-overwrite id k d (err x) h = absurd (cc)

shown : (d : Document) → truthy (field deleted_key d) ≡ false → visible d ≡ some (strip_id d)
unfolding visible
shown d live = ground arith

parent_is_there :
    (b : Bool) (r : Result (Option Document))
    → (if b then ok tt else (r >>= λ parent. parent_found parent)) ≡ ok tt
    → (b || is_there r) ≡ true
parent_is_there true r h = refl
parent_is_there false (ok (some d)) h = refl
parent_is_there false (ok none) h = absurd (cc)
parent_is_there false (err x) h = absurd (cc)

module _ {S : Type 0} where
  -- The document, if there is one, has no value for the foreign key, or a read finds its parent.
  abbrev pub refers : Checker → Engine S → Option Document → Bool
  refers checker e none = true
  refers checker e (some d) =
      is_none (field checker.fk_field d)
      || is_there (Engine.get checker.parent_collection (to_str (field checker.fk_field d)) e)

  -- Each document of the collection refers to a parent that is there.
  abbrev pub IsReferring : Checker → String → Engine S → Type 0
  IsReferring checker col e = (j : String) → refers checker e (holdings col e j) ≡ true

  pub SameDocuments-refers :
      (checker : Checker) (e e' : Engine S) (o : Option Document)
      → SameDocuments e e'
      → refers checker e' o ≡ refers checker e o
  SameDocuments-refers checker e e' none p = refl
  SameDocuments-refers checker e e' (some d) p =
      rw (p.0 checker.parent_collection (to_str (field checker.fk_field d))) refl

  pub SameDocuments-IsReferring :
      (checker : Checker) (col : String) (e e' : Engine S)
      → SameDocuments e e'
      → IsReferring checker col e
      → IsReferring checker col e'
  SameDocuments-IsReferring checker col e e' p h j =
      SameDocuments-refers checker e e' (holdings col e' j) p
      ∙ ap (λ cur. refers checker e (cur j)) (SameDocuments-holdings col e e' p)
      ∙ h j

  -- A write of a document takes no parent away.
  refers-overwrite :
      (checker : Checker) (col id : String) (v : Document) (e e' : Engine S) (o : Option Document)
      → truthy (field deleted_key v) ≡ false
      → IsOverwrite col id (visible v) e e'
      → refers checker e o ≡ true
      → refers checker e' o ≡ true
  refers-overwrite checker col id v e e' none live w h = refl
  refers-overwrite checker col id v e e' (some d) live w h =
      let p = checker.parent_collection in
      let k = to_str (field checker.fk_field d) in
      elim (Bool-cases (str_eq col p)) [
        | inl q ↦
            rw (w p k, q, shown v live, (eq_iff col p).0 q)
              (ground (arith, is_there-overwrite id k (strip_id v) (Engine.get p k e)))
        | inr q ↦ rw (w p k, q) h
      ]

  refers-written :
      (checker : Checker) (e : Engine S) (id : String) (v : Document)
      → str_eq id_key checker.fk_field ≡ false
      → refers checker e (some (with_id id (strip_id v))) ≡ refers checker e (some v)
  refers-written checker e id v key = rw (field-written checker.fk_field id v key) refl

module _ {S : Type 0} ⦃sd : SortedDict S⦄ where
  -- A write of a document that refers to its parent keeps every reference of the collection.
  pub written-IsReferring :
      (checker : Checker) (col id : String) (v : Document) (e e' : Engine S)
      → str_eq id_key checker.fk_field ≡ false
      → truthy (field deleted_key v) ≡ false
      → IsReady col e
      → IsOverwrite col id (visible v) e e'
      → refers checker e (some v) ≡ true
      → IsReferring checker col e
      → IsReferring checker col e'
  written-IsReferring checker col id v e e' key live ready w here h j =
      let change = written col id v e e' ready live w in
      elim (Bool-cases (str_eq id j)) [
        | inl q ↦
            rw (change j, q)
              (refers-written checker e' id v key
                ∙ refers-overwrite checker col id v e e' (some v) live w here)
        | inr q ↦
            rw (change j, q)
              (refers-overwrite checker col id v e e' (holdings col e j) live w (h j))
      ]

  parent_refers :
      (checker : Checker) (v : Document) (e : Engine S)
      → check_child_insert checker v e ≡ ok tt
      → refers checker e (some v) ≡ true
  unfolding check_child_insert assert_parent_exists
  parent_refers checker v e h =
      parent_is_there (is_none (field checker.fk_field v))
        (Engine.get checker.parent_collection (to_str (field checker.fk_field v)) e) h

  pub children_refer :
      (f : String) (checker : Checker) (checkers : Dict String Checker) (v : Document)
      (e : Engine S)
      → D.get f checkers ≡ some checker
      → check_children checkers v e ≡ ok tt
      → refers checker e (some v) ≡ true
  unfolding check_children D.get
  children_refer f checker [] v e m h = absurd (cc)
  children_refer f checker ((g, ch) ∷ checkers) v e m h =
      let (_, here, rest) =
        call_returned (check_child_insert ch v e) (λ u. check_children checkers v e) h in
      elim (Bool-cases (str_eq g f)) [
        | inl q ↦
            let same : ch ≡ checker = cc in
            parent_refers checker v e (subst (λ x. check_child_insert x v e ≡ ok tt) same here)
        | inr q ↦ children_refer f checker checkers v e (ground arith) rest
      ]
