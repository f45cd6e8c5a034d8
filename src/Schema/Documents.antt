-- ===== src/Schema/Documents.antt =====
-- schema/collection.py: `DocumentCollection`, which has no schema.
use jsonpy_sql.Prelude.{String, Option, List}
use jsonpy_sql.Python.Value.{Value, Document}
use jsonpy_sql.Python.Result.{Result}
use jsonpy_sql.Storage.SortedDict.{SortedDict}
use jsonpy_sql.Storage.Engine as Engine
use jsonpy_sql.Storage.Engine.{Engine}

pub record DocumentCollection : Type 0 where
  pub name : String

module _ {S : Type 0} where
  unfoldable pub get : String → DocumentCollection → Engine S → Result (Option Document)
  get doc_id c e = Engine.get c.name doc_id e

  unfoldable pub scan : DocumentCollection → Engine S → Result (List Document)
  scan c e = Engine.scan c.name e

module _ {S : Type 0} ⦃sd : SortedDict S⦄ where
  unfoldable pub insert : String → Document → DocumentCollection → Engine S → Result (Engine S)
  insert doc_id document c e = Engine.insert c.name doc_id document e

  unfoldable pub update : String → Document → DocumentCollection → Engine S → Result (Engine S)
  update doc_id document c e = Engine.update c.name doc_id document e

  unfoldable pub delete : String → DocumentCollection → Engine S → Result (Engine S)
  delete doc_id c e = Engine.delete c.name doc_id e

  unfoldable pub lookup : String → Value → DocumentCollection → Engine S → Result (List String)
  lookup f value c e = Engine.lookup c.name f value e

  unfoldable pub range_scan :
      String → Value → Value → DocumentCollection → Engine S → Result (List String)
  range_scan f low high c e = Engine.range_scan c.name f low high e
