-- ===== src/Query/Planner/Indexed.antt =====
-- The field of a plan is one of the fields that the planner was told to have an index.
use jsonpy_sql.Prelude.{◌≡◌, refl, ◌∙◌, String, true, Option, none, some, List, [], ◌∷◌, arith}
use jsonpy_sql.Python.Value.{Value}
use jsonpy_sql.Python.Result.{ok, ◌>>=◌, ok-injective, call_returned}
use jsonpy_sql.Query.Planner.{
  Expr, compare1, compare2, op_eq, Access, is_indexed, indexed_field, match_equality, try_equality,
  try_range, one_bound, extract_literal, equality_access, range_access, first_clause, parse_body,
  parse_predicate,
}

field_indexed :
    (f arg : String) (indexed : List String) (e : Expr)
    → indexed_field e arg indexed ≡ some f
    → is_indexed f indexed ≡ true
unfolding indexed_field
field_indexed f arg indexed e h = ground arith

match_indexed :
    (f arg : String) (v : Value) (indexed : List String) (e l : Expr)
    → match_equality e l arg indexed ≡ ok (some (f, v))
    → is_indexed f indexed ≡ true
unfolding match_equality indexed_field
match_indexed f arg v indexed e l h = ground arith

equality_indexed :
    (f arg : String) (v : Value) (indexed : List String) (e : Expr)
    → try_equality e arg indexed ≡ ok (some (f, v))
    → is_indexed f indexed ≡ true
unfolding try_equality
equality_indexed f arg v indexed (compare1 l op_eq r) h =
    let (m, p, q) = call_returned (match_equality l r arg indexed) _ h in go m p q
  where
    go :
        (m : Option (String × Value))
        → match_equality l r arg indexed ≡ ok m
        → elim m [ some x ↦ ok (some x) | none ↦ match_equality r l arg indexed ] ≡ ok (some (f, v))
        → is_indexed f indexed ≡ true
    go none p q = match_indexed f arg v indexed r l q
    go (some x) p q = match_indexed f arg v indexed l r (p ∙ q)
equality_indexed f arg v indexed e h = absurd (cc)

range_indexed :
    (f arg : String) (low high : Value) (indexed : List String) (e : Expr)
    → try_range e arg indexed ≡ ok (some (f, low, high))
    → is_indexed f indexed ≡ true
unfolding try_range
range_indexed f arg low high indexed (compare2 l op m op' r) h =
    let (a, p, q) = call_returned (extract_literal l) _ h in
    let (b, p', q') = call_returned (extract_literal r) _ q in
    field_indexed f arg indexed m (ground (arith, ok-injective q'))
range_indexed f arg low high indexed (compare1 l op r) h = go (indexed_field l arg indexed) refl h
  where
    go :
        (m : Option String)
        → indexed_field l arg indexed ≡ m
        → elim m [ none ↦ ok none | some g ↦ extract_literal r >>= λ v. ok (one_bound g op v) ]
          ≡ ok (some (f, low, high))
        → is_indexed f indexed ≡ true
    go none p q = absurd (cc)
    go (some g) p q =
        let (v, s, t) = call_returned (extract_literal r) _ q in
        field_indexed f arg indexed l (p ∙ ground (arith, ok-injective t))
range_indexed f arg low high indexed e h = absurd (cc)

access_indexed :
    (f arg : String) (indexed : List String) (e : Expr) (a : Access) (m : Option (String × Value))
    → try_equality e arg indexed ≡ ok m
    → elim m [
      | some r ↦ ok (equality_access r)
      | none ↦ try_range e arg indexed >>= λ r'. ok (range_access r')
    ]
      ≡ ok a
    → a.index_field ≡ some f
    → is_indexed f indexed ≡ true
access_indexed f arg indexed e a (some (g, v)) p q fld =
    equality_indexed f arg v indexed e (p ∙ ground arith)
access_indexed f arg indexed e a none p q fld =
    let (r, s, t) = call_returned (try_range e arg indexed) _ q in go r s (ok-injective t)
  where
    go :
        (r : Option (String × Value × Value))
        → try_range e arg indexed ≡ ok r
        → range_access r ≡ a
        → is_indexed f indexed ≡ true
    go none s t = absurd (ground arith)
    go (some (g, v, w)) s t = range_indexed f arg v w indexed e (s ∙ ground arith)

-- A plan that reads by a field reads by one that has an index.
pub parse_predicate-is_indexed :
    (f arg : String) (body : Expr) (indexed : List String) (a : Access)
    → parse_predicate (some (record { args = arg ∷ []; body = body })) indexed ≡ ok a
    → a.index_field ≡ some f
    → is_indexed f indexed ≡ true
unfolding parse_predicate parse_body
parse_predicate-is_indexed f arg body indexed a h fld =
    let e = first_clause body in
    let (m, p, q) = call_returned (try_equality e arg indexed) _ h in
    access_indexed f arg indexed e a m p q fld
