-- ===== src/Schema/Collection/Reverse.antt =====
-- The reverse index stands beside the documents and the indexes: keeping it changes no read.
use text.Mathlib.Text.{◌==◌ as str_eq}
use jsonpy_sql.Prelude.{
  Bool, ◌≡◌, refl, ◌∙◌, fun_ext, String, some, [], ◌∷◌, eq_iff, if◌then◌else◌, Option-cases,
  Bool-cases, inl, inr, true, false,
}
use jsonpy_sql.Python.Dict as D
use jsonpy_sql.Python.Dict.{Dict, string_key, get-set}
use jsonpy_sql.Python.Value.{is_none, to_str, Document, field}
use jsonpy_sql.Storage.SortedDict.{SortedDict}
use jsonpy_sql.Storage.IndexManager.{IndexManager, add_reverse, remove_reverse, save}
use jsonpy_sql.Storage.Engine.{Engine, get, require, lock}
use jsonpy_sql.Storage.Engine.Documents.{IsReady}
use jsonpy_sql.Storage.Engine.Indexed.{IsIndexed, holdings}
use jsonpy_sql.Schema.Fields.{ForeignKeyMeta}
use jsonpy_sql.Schema.Collection.{on_manager, register_keys, unregister_keys}

module _ {S : Type 0} where
  -- Both engines return the same for each read, and have managers with the same indexes.
  abbrev pub SameDocuments : Engine S → Engine S → Type 0
  SameDocuments e e' =
      ((c j : String) → get c j e' ≡ get c j e)
      × ((c : String) (im : IndexManager S)
          → D.get c e.managers ≡ some im
          → (im' : IndexManager S) × (D.get c e'.managers ≡ some im') × (im'.indexes ≡ im.indexes))

  abbrev pub same : (e : Engine S) → SameDocuments e e
  same e = (λ c j. refl, λ c im h. (im, h, refl))

  pub SameDocuments-trans :
      (a b c : Engine S) → SameDocuments a b → SameDocuments b c → SameDocuments a c
  SameDocuments-trans a b c p q = (
    λ n j. q.0 n j ∙ p.0 n j,
    λ n im h.
        let (im1, h1, x1) = p.1 n im h in let (im2, h2, x2) = q.1 n im1 h1 in (im2, h2, x2 ∙ x1),
  )

  pub SameDocuments-IsReady :
      (col : String) (e e' : Engine S) → SameDocuments e e' → IsReady col e → IsReady col e'
  SameDocuments-IsReady col e e' p h j = ((h j).0, p.0 col j ∙ (h j).1)

  pub SameDocuments-holdings :
      (col : String) (e e' : Engine S) → SameDocuments e e' → holdings col e' ≡ holdings col e
  SameDocuments-holdings col e e' p = fun_ext (λ j. rw (p.0 col j) refl)

  set-SameDocuments :
      (name : String) (im im' : IndexManager S) (e : Engine S)
      → D.get name e.managers ≡ some im
      → im'.indexes ≡ im.indexes
      → SameDocuments e (record e { managers = D.set name im' e.managers })
  unfolding get require lock
  set-SameDocuments name im im' e h x = (
    λ c j. elim (Bool-cases (str_eq name c)) [
      | inl q ↦ rw (get-set, q, ← (eq_iff name c).0 q, h) refl
      | inr q ↦ rw (get-set, q) refl
    ],
    λ c m k. elim (Bool-cases (str_eq name c)) [
      | inl q ↦ let n : name ≡ c = (eq_iff name c).0 q in (im', rw (get-set, q) refl, cc)
      | inr q ↦ (m, rw (get-set, q) k, refl)
    ],
  )

  pub on_manager-SameDocuments :
      (name : String) (f : IndexManager S → IndexManager S) (e : Engine S)
      → ((im : IndexManager S) → (f im).indexes ≡ im.indexes)
      → SameDocuments e (on_manager name f e)
  on_manager-SameDocuments name f e h = elim (Option-cases (D.get name e.managers)) [
    | inl q ↦ rw (on_manager, q) (same e)
    | inr (im, q) ↦ rw (on_manager, q) (set-SameDocuments name im (f im) e q (h im))
  ]

  skip-SameDocuments :
      (rest : Engine S → Engine S)
      → ((e : Engine S) → SameDocuments e (rest e))
      → (b : Bool) (e e' : Engine S) → SameDocuments e e'
      → SameDocuments e (rest (if b then e else e'))
  skip-SameDocuments rest h true e e' p = h e
  skip-SameDocuments rest h false e e' p = SameDocuments-trans e e' (rest e') p (h e')

module _ {S : Type 0} ⦃sd : SortedDict S⦄ where
  pub SameDocuments-IsIndexed :
      (col : String) (e e' : Engine S) → SameDocuments e e' → IsIndexed col e → IsIndexed col e'
  SameDocuments-IsIndexed col e e' p (im, h, exact) =
      let (im', h', x) = p.1 col im h in (im', h', rw (SameDocuments-holdings col e e' p, x) exact)

  add_reverse-indexes :
      (parent child : String) (im : IndexManager S)
      → (add_reverse parent child im).indexes ≡ im.indexes
  unfolding add_reverse save
  add_reverse-indexes parent child im = refl

  remove_reverse-indexes :
      (parent child : String) (im : IndexManager S)
      → (remove_reverse parent child im).indexes ≡ im.indexes
  unfolding remove_reverse save
  remove_reverse-indexes parent child im = refl

module _ {S : Type 0} {M : Type 0} ⦃sd : SortedDict S⦄ where
  -- Recording a document in the reverse index changes no read and no index.
  pub register_keys-SameDocuments :
      (name : String) (keys : Dict String (ForeignKeyMeta M)) (id : String) (d : Document)
      (e : Engine S)
      → SameDocuments e (register_keys name keys id d e)
  unfolding register_keys
  register_keys-SameDocuments name [] id d e = same e
  register_keys-SameDocuments name ((f, fk) ∷ keys) id d e =
      let add = add_reverse (to_str (field f d)) id in
      skip-SameDocuments (register_keys name keys id d) (register_keys-SameDocuments name keys id d)
        (is_none (field f d)) e (on_manager name add e)
        (on_manager-SameDocuments name add e (add_reverse-indexes (to_str (field f d)) id))

  -- Removing a document from the reverse index changes no read and no index.
  pub unregister_keys-SameDocuments :
      (name : String) (keys : Dict String (ForeignKeyMeta M)) (id : String) (d : Document)
      (e : Engine S)
      → SameDocuments e (unregister_keys name keys id d e)
  unfolding unregister_keys
  unregister_keys-SameDocuments name [] id d e = same e
  unregister_keys-SameDocuments name ((f, fk) ∷ keys) id d e =
      let remove = remove_reverse (to_str (field f d)) id in
      skip-SameDocuments (unregister_keys name keys id d)
        (unregister_keys-SameDocuments name keys id d) (is_none (field f d)) e
        (on_manager name remove e)
        (on_manager-SameDocuments name remove e (remove_reverse-indexes (to_str (field f d)) id))
