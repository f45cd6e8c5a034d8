-- ===== src/Schema/Registry/Backed.antt =====
-- Every registered collection is one of the engine's, also after a call that raised.
use text.Mathlib.Text.{◌==◌ as str_eq}
use text.Mathlib.TextPositions.{eq_refl}
use jsonpy_sql.Prelude.{
  ◌≡◌, refl, ◌∙◌, ap, subst, String, Bool, true, false, not, List, arith, eq_iff, ◌&&◌,
  if◌then◌else◌,
}
use jsonpy_sql.Python.Dict as D
use jsonpy_sql.Python.Dict.{Dict, string_key, get-set, get-del}
use jsonpy_sql.Python.Result.{
  Result, ok, err, ok-injective, call_returned, storage_error, collection_exists_error,
}
use jsonpy_sql.Storage.SortedDict.{SortedDict}
use jsonpy_sql.Storage.DocumentStore as Store
use jsonpy_sql.Storage.IndexManager as Im
use jsonpy_sql.Storage.IndexManager.{IndexSpec}
use jsonpy_sql.Storage.Engine as Engine
use jsonpy_sql.Storage.Engine.{Engine, require, file_of, save_manifest, create_new}
use jsonpy_sql.Storage.Engine.Created.{passed_guard}
use jsonpy_sql.Schema.Registry.{
  CollectionManager, Call, ◌and_then◌, with_engine, forget, has_collection, drop_collection,
  make_room, drop_engine, create_engine, ensure_engine,
}
use jsonpy_sql.Schema.Registry.Calls.{
  and_then_returned, engine_returned, engine_only, has_collection-forget,
}

-- What holds of the state of each of two calls holds of their sequence.
pub and_then_state {ℓ} :
    {A B T : Type 0} (P : T → Type ℓ) (call : Call A T) (rest : T → Call B T)
    → P call.1
    → ((a : A) → call ≡ (ok a, call.1) → P (rest call.1).1)
    → P (call and_then rest).1
and_then_state P (ok a, t) rest before after = after a refl
and_then_state P (err x, t) rest before after = before

module _ {S : Type 0} {M : Type 0} where
  abbrev pub has_engine : String → CollectionManager S M → Bool
  has_engine n m = D.contains n m.engine.managers

  -- A registered name has a manager in the engine.
  abbrev pub IsBacked : CollectionManager S M → Type 0
  IsBacked m = (n : String) → (has_collection n m && not (has_engine n m)) ≡ false

module _ {S : Type 0} ⦃sd : SortedDict S⦄ where
  dropped :
      (name n : String) (e e' : Engine S)
      → Engine.drop_collection name e ≡ ok e'
      → D.contains n e'.managers ≡ (if str_eq name n then false else D.contains n e.managers)
  unfolding Engine.drop_collection save_manifest
  dropped name n e e' h =
      let (im, p, q) = call_returned (require name e) _ h in
      rw (← ok-injective q) (ground (arith, get-del name n e.managers))

  created_new :
      (name n : String) (specs : List IndexSpec) (e e' : Engine S)
      → create_new name specs e ≡ ok e'
      → D.contains n e'.managers ≡ (if str_eq name n then true else D.contains n e.managers)
  unfolding create_new save_manifest
  created_new name n specs e e' h =
      let (store, p, q) = call_returned (Store.create (file_of name e)) _ h in
      rw (← ok-injective q)
        (ground (arith, get-set name n (Im.save (Im.init specs Engine.no_files)) e.managers))

  created :
      (name n : String) (specs : List IndexSpec) (e e' : Engine S)
      → Engine.create_collection name specs false e ≡ ok e'
      → D.contains n e'.managers ≡ (if str_eq name n then true else D.contains n e.managers)
  unfolding Engine.create_collection
  created name n specs e e' h =
      created_new name n specs e e' (passed_guard (D.contains name e.managers) _ _ h)

module _ {S : Type 0} {M : Type 0} ⦃sd : SortedDict S⦄ where
  -- The engine's part of a drop, for a name that the manager does not have (any more).
  drop-IsBacked :
      (name : String) (m : CollectionManager S M) (r : Result (Engine S))
      → Engine.drop_collection name m.engine ≡ r
      → has_collection name m ≡ false
      → IsBacked m
      → IsBacked (with_engine m r).1
  drop-IsBacked name m (ok e) q free h n =
      rw (engine_only m (ok e) n) (ground (arith, dropped name n m.engine e q, h n, eq_iff name n))
  drop-IsBacked name m (err x) q free h n = h n

  create-IsBacked :
      (name : String) (specs : List IndexSpec) (m : CollectionManager S M) (r : Result (Engine S))
      → Engine.create_collection name specs false m.engine ≡ r
      → IsBacked m
      → IsBacked (with_engine m r).1
  create-IsBacked name specs m (ok e) q h n =
      rw (engine_only m (ok e) n) (ground (arith, created name n specs m.engine e q, h n))
  create-IsBacked name specs m (err x) q h n = h n

  forget-IsBacked :
      (name : String) (m : CollectionManager S M) → IsBacked m → IsBacked (forget name m)
  forget-IsBacked name m h n = rw (has_collection-forget name n m) (ground (arith, h n))

  -- `drop_collection`, whether it returns or raises, leaves every registered name with a manager in
  -- the engine.
  pub drop_collection-IsBacked :
      (name : String) (m : CollectionManager S M) → IsBacked m → IsBacked (drop_collection name m).1
  unfolding drop_collection
  drop_collection-IsBacked name m h = go (has_collection name m)
    where
      go :
          (there : Bool)
          → IsBacked (
              (if not there
                then (err storage_error, m)
                else with_engine (forget name m) (Engine.drop_collection name m.engine)).1)
      go false = h
      go true =
          drop-IsBacked name (forget name m) (Engine.drop_collection name m.engine) refl
            (has_collection-forget name name m ∙ rw (eq_refl name) refl) (forget-IsBacked name m h)

  pub room-IsBacked :
      (name : String) (b : Bool) (m : CollectionManager S M)
      → IsBacked m
      → IsBacked (make_room name b m).1
  room-IsBacked name b m h = go (has_collection name m) b
    where
      go :
          (there b : Bool)
          → IsBacked (
              (if there
                then (if b then drop_collection name m else (err collection_exists_error, m))
                else (ok tt, m)).1)
      go false b = h
      go true false = h
      go true true = drop_collection-IsBacked name m h

  -- The engine's part of a registration, for a name that is free.
  pub ensure-IsBacked :
      (name : String) (specs : List IndexSpec) (b : Bool) (m : CollectionManager S M)
      → has_collection name m ≡ false
      → IsBacked m
      → IsBacked (ensure_engine name specs b m).1
  unfolding ensure_engine
  ensure-IsBacked name specs b m free h = go (has_engine name m) b
    where
      go :
          (there b : Bool)
          → IsBacked (
              (if not there
                then create_engine name specs m
                else if b
                then (drop_engine name m and_then λ s. create_engine name specs s)
                else (ok tt, m)).1)
      go false b = create-IsBacked name specs m _ refl h
      go true false = h
      go true true =
          and_then_state IsBacked (drop_engine name m) (λ s. create_engine name specs s)
            (drop-IsBacked name m (Engine.drop_collection name m.engine) refl free h)
            (λ u q.
              create-IsBacked name specs (drop_engine name m).1 _ refl
                (drop-IsBacked name m (Engine.drop_collection name m.engine) refl free h))

  -- After it the engine has the name.
  pub ensured_engine :
      (name : String) (specs : List IndexSpec) (b : Bool) (m s : CollectionManager S M)
      {u : Unit {0}}
      → ensure_engine name specs b m ≡ (ok u, s)
      → has_engine name s ≡ true
  unfolding ensure_engine
  ensured_engine name specs b m s h = go (has_engine name m) refl b h
    where
      made :
          (t : CollectionManager S M) {u : Unit {0}}
          → create_engine name specs t ≡ (ok u, s)
          → has_engine name s ≡ true
      made t k =
          created name name specs t.engine s.engine
            (engine_returned t s (Engine.create_collection name specs false t.engine) k)
          ∙ rw (eq_refl name) refl

      go :
          (there : Bool)
          → has_engine name m ≡ there
          → (b : Bool) {u : Unit {0}}
          → (if not there
              then create_engine name specs m
              else if b
              then (drop_engine name m and_then λ s. create_engine name specs s)
              else (ok tt, m))
            ≡ (ok u, s)
          → has_engine name s ≡ true
      go false q b h = made m h
      go true q true h =
          let (_, t, _, k) =
            and_then_returned (drop_engine name m) (λ s. create_engine name specs s) h in
          made t k
      go true q false h = subst (λ x. has_engine name x ≡ true) (ap (λ p. p.1) h) q
