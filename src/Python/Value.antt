-- ===== src/Python/Value.antt =====
-- The values of a document's fields: JSON scalars, with Python's `==`, `str`, truth and order.
-- Floats, lists and nested objects as field values are not modelled.
use Prim.Native.Nat.{Ordering}
use Prim.Native.String.{compare}
use text.Mathlib.Text.{◌==◌ as str_eq}
use text.Mathlib.TextPositions.{eq_refl}
use jsonpy_sql.Prelude.{
  ◌≡◌, refl, Bool, true, false, not, String, Option, none, some, arith, eq_iff,
}
use jsonpy_sql.Python.Int.{ℤ, pos, decimal, leb_ℤ, eqb_ℤ}
use jsonpy_sql.Python.Dict.{Key, Dict, string_key, get}

pub data Value : Type 0 where
  null : Value
  bool : Bool → Value
  int : ℤ → Value
  str : String → Value

abbrev pub int_of_bool : Bool → ℤ
int_of_bool true = pos 1
int_of_bool false = pos 0

-- `a == b`: a bool is the number 0 or 1.
abbrev pub value_eq : Value → Value → Bool
value_eq null null = true
value_eq (bool a) (bool b) = eqb_ℤ (int_of_bool a) (int_of_bool b)
value_eq (bool a) (int b) = eqb_ℤ (int_of_bool a) b
value_eq (int a) (bool b) = eqb_ℤ a (int_of_bool b)
value_eq (int a) (int b) = eqb_ℤ a b
value_eq (str a) (str b) = str_eq a b
value_eq _ _ = false

pub value_eq_refl : (a : Value) → value_eq a a ≡ true
value_eq_refl null = refl
value_eq_refl (bool b) = ground arith
value_eq_refl (int n) = ground arith
value_eq_refl (str s) = eq_refl s

pub value_eq_cong : (a b c : Value) → value_eq a b ≡ true → value_eq a c ≡ value_eq b c
value_eq_cong (str a) (str b) (str c) h = ground (arith, eq_iff a b)
value_eq_cong a b c h = ground arith

instance abbrev pub value_key : Key Value
value_key = record { beq = value_eq; beq_refl = value_eq_refl; beq_cong = value_eq_cong }

-- `v is None`
abbrev pub is_none : Value → Bool
is_none null = true
is_none _ = false

-- `bool(v)`
unfoldable pub truthy : Value → Bool
truthy null = false
truthy (bool b) = b
truthy (int n) = not (eqb_ℤ n (pos 0))
truthy (str s) = not (str_eq s "")

-- `str(v)`
unfoldable pub to_str : Value → String
to_str null = "None"
to_str (bool true) = "True"
to_str (bool false) = "False"
to_str (int n) = decimal n
to_str (str s) = s

abbrev pub str_le : String → String → Bool
str_le a b = elim (compare a b) [ Ordering.gt ↦ false | _ ↦ true ]

-- `a <= b`; `none` is the `TypeError` between types with no common order.
unfoldable pub value_le : Value → Value → Option Bool
value_le (bool a) (bool b) = some (leb_ℤ (int_of_bool a) (int_of_bool b))
value_le (bool a) (int b) = some (leb_ℤ (int_of_bool a) b)
value_le (int a) (bool b) = some (leb_ℤ a (int_of_bool b))
value_le (int a) (int b) = some (leb_ℤ a b)
value_le (str a) (str b) = some (str_le a b)
value_le _ _ = none

-- A document: a `dict` from field names.
abbrev pub Document : Type 0
Document = Dict String Value

abbrev pub or_null : Option Value → Value
or_null none = null
or_null (some v) = v

-- `d.get(f)`, which is `None` for a missing field
abbrev pub field : String → Document → Value
field f d = or_null (get f d)
