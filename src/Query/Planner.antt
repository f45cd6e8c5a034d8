-- ===== src/Query/Planner.antt =====
-- query/planner.py from the tree of a lambda on, which comes with the predicate; Source has the way
-- to that tree.
pub mod Source
pub mod Trimming
pub mod Indexed
pub mod Soundness
pub mod Ranges
use text.Mathlib.Text.{◌==◌ as str_eq}
use jsonpy_sql.Prelude.{
  ℕ, String, Bool, true, false, Option, none, some, List, [], ◌∷◌, ◌&&◌, not, leb, if◌then◌else◌,
  length,
}
use jsonpy_sql.Python.Int.{ℤ, pos, negsuc, pos_part, neg_part, sub_ℕ}
use jsonpy_sql.Python.Value.{Value, null, bool, int, str, int_of_bool, is_none, Document}
use jsonpy_sql.Python.Result.{Result, ok, err, type_error, ◌>>=◌}
use jsonpy_sql.Query.Models.{
  ScanType, index_lookup, range_scan, full_scan, JoinStrategy, nested_loop, hash_join, QueryPlan,
}

-- The comparison operators that the planner tells apart
pub data CmpOp : Type 0 where
  op_eq op_lt op_lte op_gt op_gte op_other : CmpOp

-- The nodes of Python's `ast` that the planner tells apart. `compare1 l op r` and
-- `compare2 l op m op' r` are comparisons with one and two operators, `conj e e'` is `e and …`,
-- and `other` is any other node.
pub data Expr : Type 0 where
  constant : Value → Expr
  name : String → Expr
  subscript : Expr → Expr → Expr
  negated : Expr → Expr
  compare1 : Expr → CmpOp → Expr → Expr
  compare2 : Expr → CmpOp → Expr → CmpOp → Expr → Expr
  conj : Expr → Expr → Expr
  other : ℕ → Expr

-- `ast.Lambda`: the names of its arguments and its body.
pub record Lambda : Type 0 where
  pub args : List String
  pub body : Expr

-- A callable given to `where`: its lambda, if one is found in its source, and what a call does.
pub record Predicate : Type 0 where
  pub source : Option Lambda
  pub test : Document → Result Bool

-- What `_parse_predicate` returns
pub record Access : Type 0 where
  pub scan_type : ScanType
  pub index_field : Option String
  pub index_value : Value
  pub index_low : Value
  pub index_high : Value

unfoldable pub extract_subscript_field : Expr → String → Option String
extract_subscript_field (subscript (name x) (constant (str f))) arg =
    if str_eq x arg then some f else none
extract_subscript_field node arg = none

abbrev pub neg_ℤ : ℤ → ℤ
neg_ℤ n = sub_ℕ (neg_part n) (pos_part n)

-- `-v`
abbrev pub negate : Value → Result Value
negate (bool b) = ok (int (neg_ℤ (int_of_bool b)))
negate (int n) = ok (int (neg_ℤ n))
negate v = err type_error

-- `null` for a node that is not a literal, as for the literal `None`
unfoldable pub extract_literal : Expr → Result Value
extract_literal (constant v) = ok v
extract_literal (negated (constant v)) = negate v
extract_literal node = ok null

-- `f in indexed`
abbrev pub is_indexed : String → List String → Bool
is_indexed f [] = false
is_indexed f (g ∷ gs) = if str_eq g f then true else is_indexed f gs

-- `field and field in indexed`
unfoldable pub indexed_field : Expr → String → List String → Option String
indexed_field node arg indexed = elim (extract_subscript_field node arg) [
  | none ↦ none
  | some f ↦ if not (str_eq f "") && is_indexed f indexed then some f else none
]

-- One of the two ways round of `_try_equality`: a field on one side and a literal on the other.
unfoldable pub match_equality :
    Expr → Expr → String → List String → Result (Option (String × Value))
match_equality node literal arg indexed = elim (indexed_field node arg indexed) [
  | none ↦ ok none
  | some f ↦ extract_literal literal >>= λ v. ok (if is_none v then none else some (f, v))
]

unfoldable pub try_equality : Expr → String → List String → Result (Option (String × Value))
try_equality (compare1 left op_eq right) arg indexed =
    match_equality left right arg indexed >>= λ m. elim m [
      | some r ↦ ok (some r)
      | none ↦ match_equality right left arg indexed
    ]
try_equality node arg indexed = ok none

-- `isinstance(op, (ast.LtE, ast.Lt))`
abbrev pub is_upper : CmpOp → Bool
is_upper op_lt = true
is_upper op_lte = true
is_upper _ = false

-- `isinstance(op, (ast.GtE, ast.Gt))`
abbrev pub is_lower : CmpOp → Bool
is_lower op_gt = true
is_lower op_gte = true
is_lower _ = false

-- The field and the bounds of a single comparison with a literal that is not `None`
abbrev pub one_bound : String → CmpOp → Value → Option (String × Value × Value)
one_bound f op v =
    if is_none v
    then none
    else if is_lower op
    then some (f, v, null)
    else if is_upper op
    then some (f, null, v)
    else none

abbrev pub two_bounds :
    Option String → Value → CmpOp → CmpOp → Value → Option (String × Value × Value)
two_bounds none low op op' high = none
two_bounds (some f) low op op' high =
    if not (is_none low) && not (is_none high) && is_upper op && is_upper op'
    then some (f, low, high)
    else none

unfoldable pub try_range : Expr → String → List String → Result (Option (String × Value × Value))
try_range (compare2 left op mid op' right) arg indexed = extract_literal left >>= λ low.
    extract_literal right >>= λ high.
    ok (two_bounds (indexed_field mid arg indexed) low op op' high)
try_range (compare1 left op right) arg indexed = elim (indexed_field left arg indexed) [
  | none ↦ ok none
  | some f ↦ extract_literal right >>= λ v. ok (one_bound f op v)
]
try_range node arg indexed = ok none

abbrev pub fail : Access
fail = record {
  scan_type = full_scan;
  index_field = none;
  index_value = null;
  index_low = null;
  index_high = null;
}

abbrev pub equality_access : String × Value → Access
equality_access (f, v) = record {
  scan_type = index_lookup;
  index_field = some f;
  index_value = v;
  index_low = null;
  index_high = null;
}

abbrev pub range_access : Option (String × Value × Value) → Access
range_access none = fail
range_access (some (f, low, high)) = record {
  scan_type = range_scan;
  index_field = some f;
  index_value = null;
  index_low = low;
  index_high = high;
}

-- The first clause of an `and`
abbrev pub first_clause : Expr → Expr
first_clause (conj e e') = e
first_clause e = e

unfoldable pub parse_body : Expr → String → List String → Result Access
parse_body body arg indexed = try_equality body arg indexed >>= λ r. elim r [
  | some m ↦ ok (equality_access m)
  | none ↦ try_range body arg indexed >>= λ r'. ok (range_access r')
]

abbrev pub parse_lambda : List String → Expr → List String → Result Access
parse_lambda (arg ∷ []) body indexed = parse_body (first_clause body) arg indexed
parse_lambda args body indexed = ok fail

unfoldable pub parse_predicate : Option Lambda → List String → Result Access
parse_predicate none indexed = ok fail
parse_predicate (some lam) indexed = parse_lambda lam.args lam.body indexed

pub record QueryPlanner : Type 0 where
  pub indexed : List String
  pub collection_size : ℕ
  pub threshold : ℕ

abbrev pub smaller : ℕ → ℕ → ℕ
smaller a b = if leb a b then a else b

-- The access of the first predicate
abbrev pub first_access : List Predicate → List String → Result Access
first_access [] indexed = ok fail
first_access (p ∷ ps) indexed = parse_predicate p.source indexed

abbrev pub strategy_for : Option String → ℕ → QueryPlanner → Option JoinStrategy
strategy_for none size pl = none
strategy_for (some c) size pl =
    some (if leb (smaller pl.collection_size size) pl.threshold then hash_join else nested_loop)

unfoldable pub plan :
    String
    → List Predicate
    → Option String
    → ℕ
    → Bool
    → Bool
    → Bool
    → Bool
    → QueryPlanner
    → Result QueryPlan
plan collection predicates join_collection size order limited projected aggregated pl =
    first_access predicates pl.indexed >>= λ a. ok (record {
      collection = collection;
      scan_type = a.scan_type;
      index_field = a.index_field;
      index_value = a.index_value;
      index_low = a.index_low;
      index_high = a.index_high;
      predicate_count = length predicates;
      join_strategy = strategy_for join_collection size pl;
      join_collection = join_collection;
      has_order_by = order;
      has_limit = limited;
      has_projection = projected;
      has_aggregation = aggregated;
    })
