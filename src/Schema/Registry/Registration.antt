-- ===== src/Schema/Registry/Registration.antt =====
-- The state of a schema collection that was just registered.
use text.Mathlib.TextPositions.{eq_refl}
use jsonpy_sql.Prelude.{
  ◌≡◌, refl, sym, ◌∙◌, ap, subst, String, Bool, true, false, not, none, some, List, [], ◌∷◌, arith,
  ◌&&◌, if◌then◌else◌, map,
}
use jsonpy_sql.Python.Dict as D
use jsonpy_sql.Python.Dict.{Dict, string_key, get-set}
use jsonpy_sql.Python.Result.{ok, err, ok-injective, collection_exists_error}
use jsonpy_sql.Storage.SortedDict.{SortedDict}
use jsonpy_sql.Storage.IndexManager.{IndexSpec, str_mem}
use jsonpy_sql.Storage.Engine as Engine
use jsonpy_sql.Storage.Engine.{Engine}
use jsonpy_sql.Storage.Engine.Indexed.{holdings}
use jsonpy_sql.Storage.Engine.Created.{declares, created_lem}
use jsonpy_sql.Schema.Fields.{
  Pydantic, Metadata, marked_fields, get_indexed_fields, get_unique_fields, is_indexed,
}
use jsonpy_sql.Schema.Collection.{SchemaCollection, schema_collection}
use jsonpy_sql.Schema.Collection.Sound.{IsSound}
use jsonpy_sql.Schema.Registry.{
  CollectionManager, Call, schema_backed, ◌and_then◌, has_collection, get_collection, make_room,
  drop_collection, drop_engine, create_engine, ensure_engine, specs_for, build_fk_checkers,
  register_schema_collection,
}
use jsonpy_sql.Schema.Registry.Calls.{and_then_returned, engine_returned}

module _ {M : Type 0} where
  unique_is_indexed :
      (f : String) (fields : Dict String (List (Metadata M)))
      → str_mem f (marked_fields (λ meta. meta.unique) fields) ≡ true
      → str_mem f (marked_fields is_indexed fields) ≡ true
  unfolding marked_fields
  unique_is_indexed f [] h = h
  unique_is_indexed f ((name, info) ∷ fields) h = ground (
    arith,
    λ (k : str_mem f (marked_fields (λ meta. meta.unique) fields) ≡ true).
        unique_is_indexed f fields k,
  )

-- The specs of a model have one for each of its indexed fields.
declares-map :
    (f : String) (fs : List String) (u : String → Bool)
    → declares f (map (λ g. record { fields = g ∷ []; unique = u g }) fs) ≡ str_mem f fs
declares-map f [] u = refl
declares-map f (g ∷ fs) u = ground (arith, declares-map f fs u)

module _ {M : Type 0} ⦃pyd : Pydantic M⦄ where
  declares-specs_for :
      (f : String) (model : M)
      → str_mem f (get_unique_fields model) ≡ true
      → declares f (specs_for model) ≡ true
  unfolding get_unique_fields get_indexed_fields
  declares-specs_for f model h =
      declares-map f (get_indexed_fields model) (λ g. str_mem g (get_unique_fields model))
      ∙ unique_is_indexed f (pyd.model_fields model) h

module _ {S : Type 0} {M : Type 0} ⦃sd : SortedDict S⦄ where
  room_kept :
      (name : String) (b : Bool) (m s : CollectionManager S M) {u : Unit {0}}
      → make_room name b m ≡ (ok u, s)
      → (D.contains name m.engine.managers && not b) ≡ false
      → (D.contains name s.engine.managers && not b) ≡ false
  room_kept name true m s h free = ground arith
  room_kept name false m s h free = go (has_collection name m) h
    where
      go :
          (there : Bool) {u : Unit {0}}
          → (if there
              then (if false then drop_collection name m else (err collection_exists_error, m))
              else (ok tt, m))
            ≡ (ok u, s)
          → (D.contains name s.engine.managers && true) ≡ false
      go false h =
          subst (λ (x : CollectionManager S M). (D.contains name x.engine.managers && true) ≡ false)
            (ap (λ p. p.1) h) free
      go true h = absurd (cc)

  ensured :
      (name : String) (specs : List IndexSpec) (b : Bool) (m s : CollectionManager S M)
      {u : Unit {0}}
      → ensure_engine name specs b m ≡ (ok u, s)
      → (D.contains name m.engine.managers && not b) ≡ false
      → (e : Engine S) × (Engine.create_collection name specs false e ≡ ok s.engine)
  unfolding ensure_engine
  ensured name specs b m s h free = go (D.contains name m.engine.managers) b h free
    where
      go :
          (there b : Bool) {u : Unit {0}}
          → (if not there
              then create_engine name specs m
              else if b
              then (drop_engine name m and_then λ s. create_engine name specs s)
              else (ok tt, m))
            ≡ (ok u, s)
          → (there && not b) ≡ false
          → (e : Engine S) × (Engine.create_collection name specs false e ≡ ok s.engine)
      go false b h free =
          (m.engine, engine_returned m s (Engine.create_collection name specs false m.engine) h)
      go true true h free =
          let (_, t, _, k) =
            and_then_returned (drop_engine name m) (λ s. create_engine name specs s) h in
          (t.engine, engine_returned t s (Engine.create_collection name specs false t.engine) k)
      go true false h free = absurd (cc)

module _ {S : Type 0} {M : Type 0} ⦃sd : SortedDict S⦄ ⦃pyd : Pydantic M⦄ where
  -- A registration that returns, of a name that the engine does not have or with `drop_if_exists`,
  -- gives a collection without documents that is sound for each unique field of the model, and
  -- `get_collection` finds it.
  pub register-IsSound :
      (name f : String) (model : M) (b : Bool) (c : SchemaCollection M)
      (m s : CollectionManager S M)
      → (D.contains name m.engine.managers && not b) ≡ false
      → str_mem f (get_unique_fields model) ≡ true
      → register_schema_collection name model b m ≡ (ok c, s)
      → IsSound name f s.engine
        × ((j : String) → holdings name s.engine j ≡ none)
        × (get_collection name s ≡ ok (schema_backed c))
        × (c ≡ schema_collection name model (build_fk_checkers name model))
  unfolding register_schema_collection get_collection
  register-IsSound name f model b c m s free unique h =
      let col = schema_collection name model (build_fk_checkers name model) in
      let (_, s1, h1, r) =
        and_then_returned
          (make_room name b m and_then λ s. ensure_engine name (specs_for model) b s) _ h in
      let (_, s0, room, made) = and_then_returned (make_room name b m) _ h1 in
      let (e, created) =
        ensured name (specs_for model) b s0 s1 made (room_kept name b m s0 room free) in
      let (ready, indexed, empty, has) = created_lem name f (specs_for model) e s1.engine created in
      let is : s.engine ≡ s1.engine =
        sym (ap (λ (p : Call (SchemaCollection M) (CollectionManager S M)). p.1.engine) r) in
      let held : D.get name s.schema_cols ≡ some col =
        rw
          (
            ← ap (λ (p : Call (SchemaCollection M) (CollectionManager S M)). p.1.schema_cols) r,
            get-set,
            eq_refl name,
          )
          refl in
      let same : c ≡ col =
        sym
          (ok-injective (ap (λ (p : Call (SchemaCollection M) (CollectionManager S M)). p.0) r)) in
      (
        rw is (ready, indexed, has ∙ declares-specs_for f model unique, λ i j. rw (empty i) refl),
        rw is empty,
        rw (get_collection, held, same) refl,
        same,
      )
