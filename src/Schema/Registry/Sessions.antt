-- ===== src/Schema/Registry/Sessions.antt =====
-- Any sequence of registrations and drops: every registered collection is one of the engine's.
use text.Mathlib.Text.{◌==◌ as str_eq}
use jsonpy_sql.Prelude.{◌≡◌, refl, String, Bool, true, List, [], ◌∷◌, arith, eq_iff, if◌then◌else◌}
use jsonpy_sql.Python.Dict as D
use jsonpy_sql.Python.Dict.{Dict, string_key, get-set, get-del}
use jsonpy_sql.Python.Result.{ok}
use jsonpy_sql.Storage.SortedDict.{SortedDict}
use jsonpy_sql.Storage.IndexManager.{IndexSpec}
use jsonpy_sql.Schema.Fields.{Pydantic}
use jsonpy_sql.Schema.Documents.{DocumentCollection}
use jsonpy_sql.Schema.Collection.{schema_collection}
use jsonpy_sql.Schema.Registry.{
  CollectionManager, Call, ◌and_then◌, has_collection, drop_collection, make_room, ensure_engine,
  plain_specs, specs_for, build_fk_checkers, register_document_collection,
  register_schema_collection,
}
use jsonpy_sql.Schema.Registry.Calls.{and_then_returned, room_IsFree}
use jsonpy_sql.Schema.Registry.Backed.{
  and_then_state, IsBacked, has_engine, room-IsBacked, ensure-IsBacked, ensured_engine,
  drop_collection-IsBacked,
}

-- A call on the manager.
pub data Operation (M : Type 0) : Type 0 where
  register_schema : String → M → Bool → Operation M
  register_document : String → List String → Bool → Operation M
  drop : String → Operation M

module _ {S : Type 0} {M : Type 0} ⦃sd : SortedDict S⦄ where
  registered-IsBacked :
      {A : Type 0} (name : String) (specs : List IndexSpec) (b : Bool) (m : CollectionManager S M)
      (last : CollectionManager S M → Call A (CollectionManager S M))
      → ((n : String) (s : CollectionManager S M)
          → has_collection n (last s).1 ≡ (if str_eq name n then true else has_collection n s))
      → ((s : CollectionManager S M) → (last s).1.engine ≡ s.engine)
      → IsBacked m
      → IsBacked ((make_room name b m and_then (λ s. ensure_engine name specs b s) and_then last).1)
  registered-IsBacked name specs b m last names engine h =
      and_then_state IsBacked before last backed (λ u q n.
        rw (names n before.1, engine before.1) (ground (arith, backed n, there u q, eq_iff name n)))
    where
      before : Call (Unit {0}) (CollectionManager S M)
      before = make_room name b m and_then λ s. ensure_engine name specs b s

      backed : IsBacked before.1
      backed =
          and_then_state IsBacked (make_room name b m) (λ s. ensure_engine name specs b s)
            (room-IsBacked name b m h)
            (λ u q.
              ensure-IsBacked name specs b (make_room name b m).1
                (room_IsFree name b m (make_room name b m).1 q) (room-IsBacked name b m h))

      there : (u : Unit {0}) → before ≡ (ok u, before.1) → has_engine name before.1 ≡ true
      there u q =
          let (_, t, _, k) =
            and_then_returned (make_room name b m) (λ s. ensure_engine name specs b s) q in
          ensured_engine name specs b t before.1 k

  -- `register_document_collection`, whether it returns or raises, leaves every registered name with
  -- a manager in the engine.
  register_document-IsBacked :
      (name : String) (indexes : List String) (b : Bool) (m : CollectionManager S M)
      → IsBacked m
      → IsBacked (register_document_collection name indexes b m).1
  unfolding register_document_collection has_collection
  register_document-IsBacked name indexes b m h =
      let col : DocumentCollection = record { name = name } in
      registered-IsBacked name (plain_specs indexes) b m
        (λ s. (ok col, record s { doc_cols = D.set name col s.doc_cols }))
        (λ n s. ground (arith, get-set name n col s.doc_cols)) (λ s. refl) h

module _ {S : Type 0} {M : Type 0} ⦃sd : SortedDict S⦄ ⦃pyd : Pydantic M⦄ where
  -- `register_schema_collection`, whether it returns or raises, leaves every registered name with
  -- a manager in the engine.
  register_schema-IsBacked :
      (name : String) (model : M) (b : Bool) (m : CollectionManager S M)
      → IsBacked m
      → IsBacked (register_schema_collection name model b m).1
  unfolding register_schema_collection has_collection
  register_schema-IsBacked name model b m h =
      let col = schema_collection name model (build_fk_checkers name model) in
      registered-IsBacked name (specs_for model) b m
        (λ s. (ok col, record s { schema_cols = D.set name col s.schema_cols }))
        (λ n s. ground (arith, get-set name n col s.schema_cols)) (λ s. refl) h

  -- The state after a call, whether it returned or raised.
  abbrev pub perform : Operation M → CollectionManager S M → CollectionManager S M
  perform (register_schema name model b) m = (register_schema_collection name model b m).1
  perform (register_document name indexes b) m = (register_document_collection name indexes b m).1
  perform (drop name) m = (drop_collection name m).1

  abbrev pub perform_all : List (Operation M) → CollectionManager S M → CollectionManager S M
  perform_all [] m = m
  perform_all (o ∷ os) m = perform_all os (perform o m)

  perform-IsBacked :
      (o : Operation M) (m : CollectionManager S M) → IsBacked m → IsBacked (perform o m)
  perform-IsBacked (register_schema name model b) m h = register_schema-IsBacked name model b m h
  perform-IsBacked (register_document name indexes b) m h =
      register_document-IsBacked name indexes b m h
  perform-IsBacked (drop name) m h = drop_collection-IsBacked name m h

  -- After any sequence of registrations and drops, of which any may raise, on a manager each of
  -- whose names the engine has, as a new manager's are, the engine has each registered name.
  pub perform_all-IsBacked :
      (os : List (Operation M)) (m : CollectionManager S M)
      → IsBacked m
      → IsBacked (perform_all os m)
  perform_all-IsBacked [] m h = h
  perform_all-IsBacked (o ∷ os) m h = perform_all-IsBacked os (perform o m) (perform-IsBacked o m h)
