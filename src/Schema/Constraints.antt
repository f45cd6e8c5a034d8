-- ===== src/Schema/Constraints.antt =====
-- schema/constraints.py: the checks that run before a write. A check returns or raises.
use text.Mathlib.Text.{◌==◌ as str_eq}
use jsonpy_sql.Prelude.{String, not, Option, none, some, List, [], ◌∷◌, filter_by, if◌then◌else◌}
use jsonpy_sql.Python.Dict as D
use jsonpy_sql.Python.Dict.{Dict, string_key}
use jsonpy_sql.Python.Value.{Value, is_none, to_str, Document, field}
use jsonpy_sql.Python.Result.{
  Result, ok, err, unique_constraint_error, referential_integrity_error, ◌>>=◌,
}
use jsonpy_sql.Storage.SortedDict.{SortedDict}
use jsonpy_sql.Storage.IndexManager.{IndexManager, get_children}
use jsonpy_sql.Storage.Engine as Engine
use jsonpy_sql.Storage.Engine.{Engine}
use jsonpy_sql.Schema.Fields.{OnDelete, restrict}

-- `ReferentialIntegrityChecker`
pub record Checker : Type 0 where
  pub parent_collection : String
  pub parent_pk_field : String
  pub child_collection : String
  pub fk_field : String
  pub on_delete : OnDelete

abbrev pub raise_if_any : List String → Result (Unit {0}) → Result (Unit {0})
raise_if_any [] rest = rest
raise_if_any (_ ∷ _) rest = err unique_constraint_error

-- `[eid for eid in existing if eid != doc_id]`
abbrev pub others : String → List String → List String
others doc_id existing = filter_by (λ eid. not (str_eq eid doc_id)) existing

abbrev pub parent_found : Option Document → Result (Unit {0})
parent_found none = err referential_integrity_error
parent_found (some _) = ok tt

abbrev pub restrict_if_any : OnDelete → List String → Result (Unit {0})
restrict_if_any restrict (_ ∷ _) = err referential_integrity_error
restrict_if_any on_delete children = ok tt

module _ {S : Type 0} ⦃sd : SortedDict S⦄ where
  -- `UniqueConstraintChecker.check_insert`
  unfoldable pub check_insert : String → List String → Document → Engine S → Result (Unit {0})
  check_insert col [] document e = ok tt
  check_insert col (f ∷ fs) document e =
      let rest = check_insert col fs document e in
      if is_none (field f document)
      then rest
      else (Engine.lookup col f (field f document) e >>= λ existing. raise_if_any existing rest)

  -- `UniqueConstraintChecker.check_update`
  unfoldable pub check_update :
      String → List String → String → Document → Engine S → Result (Unit {0})
  check_update col [] doc_id document e = ok tt
  check_update col (f ∷ fs) doc_id document e =
      let rest = check_update col fs doc_id document e in
      if is_none (field f document)
      then rest
      else (Engine.lookup col f (field f document) e >>= λ existing.
          raise_if_any (others doc_id existing) rest)

  unfoldable pub assert_parent_exists : Checker → Value → Engine S → Result (Unit {0})
  assert_parent_exists checker parent_id e =
      Engine.get checker.parent_collection (to_str parent_id) e >>= λ parent. parent_found parent

  unfoldable pub check_child_insert : Checker → Document → Engine S → Result (Unit {0})
  check_child_insert checker document e =
      if is_none (field checker.fk_field document)
      then ok tt
      else assert_parent_exists checker (field checker.fk_field document) e

  -- `for checker in self._fk_checkers.values()`
  unfoldable pub check_children : Dict String Checker → Document → Engine S → Result (Unit {0})
  check_children [] document e = ok tt
  check_children ((f, checker) ∷ checkers) document e =
      check_child_insert checker document e >>= λ u. check_children checkers document e

  abbrev pub children_in : Option (IndexManager S) → String → List String
  children_in none parent_id = []
  children_in (some im) parent_id = get_children parent_id im

  unfoldable pub check_parent_delete : Checker → String → Engine S → Result (Unit {0})
  check_parent_delete checker parent_id e =
      restrict_if_any checker.on_delete
        (children_in (D.get checker.child_collection e.managers) parent_id)
