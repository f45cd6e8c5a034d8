-- ===== src/Schema/Registry/Calls.antt =====
-- What the parts of a registration have done when they return.
use text.Mathlib.Text.{◌==◌ as str_eq}
use text.Mathlib.TextPositions.{eq_refl}
use jsonpy_sql.Prelude.{
  ◌≡◌, refl, ◌∙◌, ap, subst, String, Bool, true, false, not, arith, eq_iff, if◌then◌else◌,
  Bool-cases, inl, inr,
}
use jsonpy_sql.Python.Dict.{string_key, get-del}
use jsonpy_sql.Python.Result.{Result, ok, err, collection_exists_error, storage_error}
use jsonpy_sql.Storage.SortedDict.{SortedDict}
use jsonpy_sql.Storage.Engine as Engine
use jsonpy_sql.Storage.Engine.{Engine}
use jsonpy_sql.Schema.Registry.{
  CollectionManager, Call, ◌and_then◌, with_engine, forget, has_collection, drop_collection,
  make_room,
}

-- If a method returns after a call, the call has returned.
pub and_then_returned :
    {A B T : Type 0} (call : Call A T) (rest : T → Call B T) {b : B} {s : T}
    → (call and_then rest) ≡ (ok b, s)
    → (a : A) × (t : T) × (call ≡ (ok a, t)) × (rest t ≡ (ok b, s))
and_then_returned (ok a, t) rest h = (a, t, refl, h)
and_then_returned (err x, t) rest h = absurd (cc)

module _ {S : Type 0} {M : Type 0} where
  pub engine_returned :
      (m s : CollectionManager S M) (r : Result (Engine S)) {u : Unit {0}}
      → with_engine m r ≡ (ok u, s)
      → r ≡ ok s.engine
  engine_returned m s (ok e) h =
      ap (λ (p : Call (Unit {0}) (CollectionManager S M)). ok p.1.engine) h
  engine_returned m s (err x) h = absurd (cc)

  pub has_collection-forget :
      (name n : String) (m : CollectionManager S M)
      → has_collection n (forget name m) ≡ (if str_eq name n then false else has_collection n m)
  unfolding has_collection
  has_collection-forget name n m =
      ground (arith, get-del name n m.schema_cols, get-del name n m.doc_cols)

  -- A call of the engine changes no registration.
  pub engine_only :
      (m : CollectionManager S M) (r : Result (Engine S)) (n : String)
      → has_collection n (with_engine m r).1 ≡ has_collection n m
  unfolding has_collection
  engine_only m (ok e) n = refl
  engine_only m (err x) n = refl

module _ {S : Type 0} {M : Type 0} ⦃sd : SortedDict S⦄ where
  -- What `drop_collection` leaves registered, whether it returns or raises.
  pub has_collection-drop_collection :
      (name n : String) (m : CollectionManager S M)
      → has_collection n (drop_collection name m).1
        ≡ (if str_eq name n then false else has_collection n m)
  unfolding drop_collection has_collection
  has_collection-drop_collection name n m = go (has_collection name m) refl
    where
      go :
          (there : Bool)
          → has_collection name m ≡ there
          → has_collection n
              (if not there
                then (err storage_error, m)
                else with_engine (forget name m) (Engine.drop_collection name m.engine)).1
            ≡ (if str_eq name n then false else has_collection n m)
      go true q =
          engine_only (forget name m) (Engine.drop_collection name m.engine) n
          ∙ has_collection-forget name n m
      go false q = elim (Bool-cases (str_eq name n)) [
        | inl p ↦ rw (p, ← (eq_iff name n).0 p) q
        | inr p ↦ rw p refl
      ]

  -- The name is free once room was made for it.
  pub room_IsFree :
      (name : String) (b : Bool) (m s : CollectionManager S M) {u : Unit {0}}
      → make_room name b m ≡ (ok u, s)
      → has_collection name s ≡ false
  room_IsFree name b m s h = go (has_collection name m) refl b h
    where
      go :
          (there : Bool)
          → has_collection name m ≡ there
          → (b : Bool) {u : Unit {0}}
          → (if there
              then (if b then drop_collection name m else (err collection_exists_error, m))
              else (ok tt, m))
            ≡ (ok u, s)
          → has_collection name s ≡ false
      go false q b h = subst (λ x. has_collection name x ≡ false) (ap (λ p. p.1) h) q
      go true q true h =
          subst (λ x. has_collection name x ≡ false) (ap (λ p. p.1) h)
            (has_collection-drop_collection name name m ∙ rw (eq_refl name) refl)
      go true q false h = absurd (cc)
