-- ===== src/Database/Compaction.antt =====
-- Compaction through the database, of one collection or of all.
use jsonpy_sql.Prelude.{◌≡◌, refl, ◌∙◌, String, Option, none, some, List, [], ◌∷◌}
use jsonpy_sql.Python.Result.{Result, ok, err}
use jsonpy_sql.Storage.SortedDict.{SortedDict}
use jsonpy_sql.Storage.Engine as Engine
use jsonpy_sql.Storage.Engine.{Engine}
use jsonpy_sql.Storage.Engine.Registry.{compact_lem}
use jsonpy_sql.Schema.Registry.{with_engine}
use jsonpy_sql.Schema.Registry.Backed.{and_then_state}
use jsonpy_sql.Database.State.{
  Database, engine_of, on_manager, compact_one, compact_all, compact, list_collections,
}

module _ {S M F B : Type 0} ⦃sd : SortedDict S⦄ where
  -- Both databases return the same for each read.
  abbrev pub SameReads : Database S M F B → Database S M F B → Type 0
  SameReads db db' = (c j : String) → Engine.get c j (engine_of db') ≡ Engine.get c j (engine_of db)

  compacted :
      (name : String) (db : Database S M F B) (r : Result (Engine S))
      → Engine.compact name (engine_of db) ≡ r
      → SameReads db (on_manager db (with_engine db.manager r)).1
  compacted name db (ok e) h c j = compact_lem name c j (engine_of db) e h
  compacted name db (err x) h c j = refl

  compact_one-SameReads :
      (name : String) (db : Database S M F B) → SameReads db (compact_one name db).1
  unfolding compact_one
  compact_one-SameReads name db = compacted name db (Engine.compact name (engine_of db)) refl

  compact_all-SameReads :
      (names : List String) (db : Database S M F B) → SameReads db (compact_all names db).1
  unfolding compact_all
  compact_all-SameReads [] db c j = refl
  compact_all-SameReads (name ∷ names) db c j =
      and_then_state (SameReads db) (compact_one name db) (λ db'. compact_all names db')
        (compact_one-SameReads name db)
        (λ u q c j.
          compact_all-SameReads names (compact_one name db).1 c j
          ∙ compact_one-SameReads name db c j)
        c j

  -- `compact` of one collection or of all changes no read of a document of any collection, whether
  -- it returns or raises, also where it raises after it has compacted some of the collections.
  pub get-compact_database :
      (target : Option String) (db : Database S M F B) (c j : String)
      → Engine.get c j (engine_of (compact target db).1) ≡ Engine.get c j (engine_of db)
  unfolding compact
  get-compact_database none db c j = compact_all-SameReads (list_collections db) db c j
  get-compact_database (some name) db c j = compact_one-SameReads name db c j
