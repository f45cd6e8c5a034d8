-- ===== src/Storage/Engine/Registry.antt =====
-- What the creation and the removal of a collection, and compaction, change for readers.
use text.Mathlib.Text.{◌==◌ as str_eq}
use jsonpy_sql.Prelude.{
  ◌≡◌, refl, sym, ◌∙◌, ap, String, Bool, true, false, none, some, List, [], arith, eq_iff,
  if◌then◌else◌, Bool-cases, inl, inr, map,
}
use jsonpy_sql.Python.Dict as D
use jsonpy_sql.Python.Dict.{Dict, string_key, get-set, get-del}
use jsonpy_sql.Python.Value.{Document}
use jsonpy_sql.Python.Result.{
  ok, err, storage_error, collection_exists_error, ◌>>=◌, ok-injective, call_returned,
}
use jsonpy_sql.Storage.SortedDict.{SortedDict}
use jsonpy_sql.Storage.DocumentStore as Store
use jsonpy_sql.Storage.DocumentStore.{Line}
use jsonpy_sql.Storage.DocumentStore.Compaction.{get-compact}
use jsonpy_sql.Storage.IndexManager.{IndexManager, IndexSpec}
use jsonpy_sql.Storage.Engine.State.{
  Engine, registry, file_of, require, lock, get, compact, write_back,
}
use jsonpy_sql.Storage.Engine.Collections.{
  save_manifest, drop_collection, create_new, create_collection,
}
use jsonpy_sql.Storage.Engine.Documents.{locked, get_opened, get-write_back}

created : (f : Store.File) (store : Store.File) → Store.create f ≡ ok store → store ≡ some []
unfolding Store.create
created none store h = sym (ok-injective h)
created (some ls) store h = absurd (cc)

module _ {S : Type 0} ⦃sd : SortedDict S⦄ where
  -- After the removal of a collection its reads raise, the reads of other collections are as before,
  -- and the manifest has what is registered.
  pub drop_collection_lem :
      (name c j : String) (e e' : Engine S)
      → drop_collection name e ≡ ok e'
      → (get c j e' ≡ (if str_eq name c then err storage_error else get c j e))
        × (e'.manifest ≡ registry e'.specs)
  unfolding drop_collection Store.destroy save_manifest get require lock
  drop_collection_lem name c j e e' h =
      let (im, p, q) = call_returned (require name e) _ h in
      (
        rw (← ok-injective q) (ground (arith, get-del name c e.managers, get-del name c e.jsonl)),
        rw (← ok-injective q) refl,
      )

  create_new_lem :
      (name c j : String) (specs : List IndexSpec) (e e' : Engine S)
      → create_new name specs e ≡ ok e'
      → (get c j e' ≡ (if str_eq name c then ok none else get c j e))
        × (e'.manifest ≡ registry e'.specs)
        × (D.get name e'.specs ≡ some specs)
  unfolding create_new save_manifest get require lock Store.get Store.iter_lines Store.get_loop
  create_new_lem name c j specs e e' h =
      let (store, p, q) = call_returned (Store.create (file_of name e)) _ h in
      let empty : store ≡ some [] = created (file_of name e) store p in
      (
        rw (← ok-injective q, empty) (rw (get-set, get-set) (ground arith)),
        rw (← ok-injective q) refl,
        rw (← ok-injective q) (ground (arith, get-set name name specs e.specs, eq_iff name name)),
      )

  -- After the creation of a collection, in place of an old one or not, it is empty and registered
  -- with its specs, the reads of other collections are as before, and the manifest has what is
  -- registered.
  pub create_collection_lem :
      (name c j : String) (specs : List IndexSpec) (replace : Bool) (e e' : Engine S)
      → create_collection name specs replace e ≡ ok e'
      → (get c j e' ≡ (if str_eq name c then ok none else get c j e))
        × (e'.manifest ≡ registry e'.specs)
        × (D.get name e'.specs ≡ some specs)
  unfolding create_collection
  create_collection_lem name c j specs replace e e' h = go (D.contains name e.managers) replace h
    where
      go :
          (there replace : Bool)
          → (if there
              then (if replace
                  then (drop_collection name e >>= λ dropped. create_new name specs dropped)
                  else err collection_exists_error)
              else create_new name specs e)
            ≡ ok e'
          → (get c j e' ≡ (if str_eq name c then ok none else get c j e))
            × (e'.manifest ≡ registry e'.specs)
            × (D.get name e'.specs ≡ some specs)
      go false replace k = create_new_lem name c j specs e e' k
      go true false k = absurd (cc)
      go true true k =
          let (dropped, p, q) = call_returned (drop_collection name e) _ k in
          let (now, m, s) = create_new_lem name c j specs dropped e' q in
          let (before, n) = drop_collection_lem name c j e dropped p in
          (ground (arith, now, before), m, s)

  compacted :
      (col c j : String) (docs : List Document) (im : IndexManager S) (e : Engine S)
      → Store.get j (Store.compact docs (file_of col e)) ≡ get col j e
      → get c j (write_back col (Store.compact docs (file_of col e)) im e) ≡ get c j e
  unfolding Store.compact
  compacted col c j docs im e same =
      get-write_back col c j (map Store.json docs) im e ∙ elim (Bool-cases (str_eq col c)) [
        | inl q ↦ rw q (same ∙ ap (λ x. get x j e) ((eq_iff col c).0 q))
        | inr q ↦ rw q
      ]

  -- A successful compaction of a collection changes no read.
  pub compact_lem :
      (col c j : String) (e e' : Engine S) → compact col e ≡ ok e' → get c j e' ≡ get c j e
  unfolding compact
  compact_lem col c j e e' h =
      let (im, ls, p, q, r) = locked col e _ h in
      let (docs, s, t) = call_returned (Store.scan (file_of col e)) _ r in
      let same : Store.get j (Store.compact docs (file_of col e)) ≡ get col j e =
        get-compact j (file_of col e) docs s
        ∙ ap (Store.get j) q
        ∙ sym (get_opened col j e im ls p q) in
      rw (← ok-injective t) (compacted col c j docs _ e same)
