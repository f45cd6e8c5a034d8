-- ===== src/Tests/Models.antt =====
-- Two models, users with a unique name and orders that refer to them, and their collections.
use jsonpy_sql.Prelude.{String, true, false, Option, none, some, List, [], ◌∷◌, if◌then◌else◌}
use jsonpy_sql.Python.Dict as D
use jsonpy_sql.Python.Dict.{Dict, string_key}
use jsonpy_sql.Python.Value.{Document, str}
use jsonpy_sql.Storage.SortedDict.{Postings}
use jsonpy_sql.Storage.DocumentStore.{json}
use jsonpy_sql.Storage.IndexManager.{IndexManager}
use jsonpy_sql.Storage.Engine.{Engine}
use jsonpy_sql.Schema.Fields.{Pydantic, Metadata, FieldMeta, field_meta, fk_meta, restrict}
use jsonpy_sql.Schema.Constraints.{Checker}
use jsonpy_sql.Schema.Collection.{SchemaCollection, schema_collection}
use jsonpy_sql.Schema.Registry.{build_fk_checkers}
use jsonpy_sql.Tests.Collections.{users}

pub data Model : Type 0 where
  user order : Model

abbrev class_of : Model → String
class_of user = "user"
class_of order = "order"

abbrev unique_field : FieldMeta
unique_field = record { primary_key = false; index = false; unique = true; nullable = false }

abbrev fields_of : Model → Dict String (List (Metadata Model))
fields_of user = ("name", field_meta unique_field ∷ []) ∷ ("age", []) ∷ []
fields_of order = ("user", fk_meta (record { target_model = user; on_delete = restrict }) ∷ []) ∷ []

-- A user needs a name.
abbrev validated : Model → Document → Option Document
validated user d = if D.contains "name" d then some d else none
validated order d = some d

instance abbrev pub models : Pydantic Model
models = record {
  class_name = class_of;
  model_fields = fields_of;
  model_validate = validated;
  lower = λ s. s;
}

abbrev pub people : SchemaCollection Model
people = schema_collection "users" user []

abbrev pub orders : SchemaCollection Model
orders = schema_collection "orders" order (build_fk_checkers "orders" order)

abbrev pub of_user : Checker
of_user = record {
  parent_collection = "users";
  parent_pk_field = "id";
  child_collection = "orders";
  fk_field = "user";
  on_delete = restrict;
}

abbrev pub order_of_ann : Document
order_of_ann = ("user", str "1") ∷ []

abbrev pub order_stored : Document
order_stored = ("user", str "1") ∷ ("_id", str "o1") ∷ []

abbrev pub no_orders : IndexManager Postings
no_orders = record { indexes = []; reverse = []; files = record { idx = []; ridx = none } }

-- The collection `users` with Ann, and a collection `orders` without documents.
abbrev pub shop : Engine Postings
shop = record users {
  managers = ("orders", no_orders) ∷ users.managers;
  jsonl = ("orders", []) ∷ users.jsonl;
}

-- The same, with an order by Ann.
abbrev pub busy_shop : Engine Postings
busy_shop = record users {
  managers = ("orders", no_orders) ∷ users.managers;
  jsonl = ("orders", json order_stored ∷ []) ∷ users.jsonl;
}
