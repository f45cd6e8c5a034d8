-- ===== src/Query/Planner/Ranges.antt =====
-- The plans for ranges against what the predicate's lambda evaluates to.
use jsonpy_sql.Prelude.{
  ◌≡◌, refl, sym, ◌∙◌, ap, subst, String, Bool, true, false, Option, none, some, List, [], ◌∷◌,
  arith, if◌then◌else◌,
}
use jsonpy_sql.Python.Text.{str_le_total}
use jsonpy_sql.Python.Value.{Value, str, value_le, truthy, is_none, Document, field}
use jsonpy_sql.Python.Result.{Result, ok, err, ◌>>=◌, ok-injective, call_returned}
use jsonpy_sql.Query.Models.{range_scan, value_lt}
use jsonpy_sql.Query.Planner.{
  Expr, compare1, compare2, CmpOp, op_lt, op_lte, op_gt, op_gte, Access, extract_literal,
  indexed_field, try_equality, try_range, first_clause, parse_body, parse_predicate, is_upper,
  is_lower, one_bound, two_bounds, equality_access, range_access,
}
use jsonpy_sql.Query.Planner.Soundness.{
  le_of, bool_of, compare_values, eval, Holds, field-eval, literal_eval, first_eval, truthy_bool,
}

value_lt-le : (a b : Value) → value_lt a b ≡ ok true → le_of a b ≡ ok true
unfolding value_le
value_lt-le (str s) (str t) h = ground (arith, str_le_total t s)
value_lt-le a b h = ground arith

bool_of-true : (r : Result Bool) (t : Value) → bool_of r ≡ ok t → truthy t ≡ true → r ≡ ok true
bool_of-true (ok c) t h y = ap ok (truthy_bool c t h y)
bool_of-true (err x) t h y = absurd (cc)

-- `low <= v` and `v <= high`, where a bound of `None` is no bound.
abbrev pub at_least : Value → Value → Result Bool
at_least low v = if is_none low then ok true else le_of low v

abbrev pub at_most : Value → Value → Result Bool
at_most high v = if is_none high then ok true else le_of v high

-- The document's field lies within the bounds that are there.
abbrev pub IsWithin : String → Value → Value → Document → Type 0
IsWithin f low high d = (at_least low (field f d) ≡ ok true) × (at_most high (field f d) ≡ ok true)

module _ (rest : Expr → Document → Result Value) where
  upper_le :
      (node : Expr) (op : CmpOp) (a b t : Value) (d : Document)
      → is_upper op ≡ true
      → compare_values rest node op a b d ≡ ok t
      → truthy t ≡ true
      → le_of a b ≡ ok true
  upper_le node op_lt a b t d h q y = value_lt-le a b (bool_of-true (value_lt a b) t q y)
  upper_le node op_lte a b t d h q y = bool_of-true (le_of a b) t q y
  upper_le node op a b t d h q y = absurd (cc)

  lower_le :
      (node : Expr) (op : CmpOp) (a b t : Value) (d : Document)
      → is_lower op ≡ true
      → compare_values rest node op a b d ≡ ok t
      → truthy t ≡ true
      → le_of b a ≡ ok true
  lower_le node op_gt a b t d h q y = value_lt-le b a (bool_of-true (value_lt b a) t q y)
  lower_le node op_gte a b t d h q y = bool_of-true (le_of b a) t q y
  lower_le node op a b t d h q y = absurd (cc)

  one-IsWithin :
      (node : Expr) (op : CmpOp) (f g : String) (v low high a b t : Value) (d : Document)
      → one_bound g op v ≡ some (f, low, high)
      → field g d ≡ a
      → (is_none v ≡ false → b ≡ v)
      → compare_values rest node op a b d ≡ ok t
      → truthy t ≡ true
      → IsWithin f low high d
  one-IsWithin node op f g v low high a b t d h p lit q y =
      let up = λ (u : is_upper op ≡ true). upper_le node op a b t d u q y in
      let down = λ (u : is_lower op ≡ true). lower_le node op a b t d u q y in
      (ground (arith, lit, up, down), ground (arith, lit, up, down))

  two-IsWithin :
      (node : Expr) (op op' : CmpOp) (f : String) (m : Option String)
      (v w low high a b c t t' : Value) (d : Document)
      → two_bounds m v op op' w ≡ some (f, low, high)
      → (m ≡ some f → field f d ≡ b)
      → (is_none v ≡ false → a ≡ v)
      → (is_none w ≡ false → c ≡ w)
      → compare_values rest node op a b d ≡ ok t
      → truthy t ≡ true
      → compare_values rest node op' b c d ≡ ok t'
      → truthy t' ≡ true
      → IsWithin f low high d
  two-IsWithin node op op' f m v w low high a b c t t' d h p lv lw q y q' y' =
      let below = λ (u : is_upper op ≡ true). upper_le node op a b t d u q y in
      let above = λ (u : is_upper op' ≡ true). upper_le node op' b c t' d u q' y' in
      (ground (arith, p, lv, lw, below, above), ground (arith, p, lv, lw, below, above))

  indexed_eval :
      (arg f : String) (indexed : List String) (e : Expr) (d : Document) (a : Value)
      → indexed_field e arg indexed ≡ some f
      → eval rest arg e d ≡ ok a
      → field f d ≡ a
  unfolding indexed_field
  indexed_eval arg f indexed e d a h q = field-eval rest arg f e d a (ground arith) q

  one_eval :
      (arg f : String) (indexed : List String) (l r : Expr) (op : CmpOp) (d : Document)
      (low high a b t : Value) (m : Option String)
      → indexed_field l arg indexed ≡ m
      → elim m [ none ↦ ok none | some g ↦ extract_literal r >>= λ v. ok (one_bound g op v) ]
        ≡ ok (some (f, low, high))
      → eval rest arg l d ≡ ok a
      → eval rest arg r d ≡ ok b
      → compare_values rest (compare1 l op r) op a b d ≡ ok t
      → truthy t ≡ true
      → IsWithin f low high d
  one_eval arg f indexed l r op d low high a b t none hm h qa qb q y = absurd (cc)
  one_eval arg f indexed l r op d low high a b t (some g) hm h qa qb q y =
      let (v, hv, k) = call_returned (extract_literal r) _ h in
      one-IsWithin (compare1 l op r) op f g v low high a b t d (ok-injective k)
        (indexed_eval arg g indexed l d a hm qa) (λ n. literal_eval rest arg r d v b hv n qb) q y

  second_true :
      (node r : Expr) (op : CmpOp) (arg : String) (b t t' : Value) (d : Document) (c : Bool)
      → truthy t ≡ c
      → elim c [
        | false ↦ ok t
        | true ↦ eval rest arg r d >>= λ w. compare_values rest node op b w d
      ]
        ≡ ok t'
      → truthy t' ≡ true
      → (truthy t ≡ true) × (eval rest arg r d >>= λ w. compare_values rest node op b w d) ≡ ok t'
  second_true node r op arg b t t' d true h k y = (h, k)
  second_true node r op arg b t t' d false h k y =
      absurd (ground (arith, λ (q : t ≡ t'). subst (λ v. truthy v ≡ true) (sym q) y))

  -- A range that the planner finds in an expression holds where the expression does.
  range_eval :
      (arg f : String) (indexed : List String) (e : Expr) (d : Document) (low high : Value)
      → try_range e arg indexed ≡ ok (some (f, low, high))
      → Holds rest arg e d
      → IsWithin f low high d
  unfolding try_range eval
  range_eval arg f indexed (compare1 l op r) d low high h (t, q, y) =
      let (a, qa, q') = call_returned (eval rest arg l d) _ q in
      let (b, qb, q2) = call_returned (eval rest arg r d) _ q' in
      one_eval arg f indexed l r op d low high a b t (indexed_field l arg indexed) refl h qa qb q2 y
  range_eval arg f indexed (compare2 l op m op' r) d low high h (t', q, y') =
      let node = compare2 l op m op' r in
      let (v, hv, h') = call_returned (extract_literal l) _ h in
      let (w, hw, k) = call_returned (extract_literal r) _ h' in
      let (a, qa, q') = call_returned (eval rest arg l d) _ q in
      let (b, qb, q2) = call_returned (eval rest arg m d) _ q' in
      let (t, qt, q3) = call_returned (compare_values rest node op a b d) _ q2 in
      let (y, q4) = second_true node r op' arg b t t' d (truthy t) refl q3 y' in
      let (c, qc, q5) = call_returned (eval rest arg r d) _ q4 in
      two-IsWithin node op op' f (indexed_field m arg indexed) v w low high a b c t t' d
        (ok-injective k) (λ s. indexed_eval arg f indexed m d b s qb)
        (λ n. literal_eval rest arg l d v a hv n qa) (λ n. literal_eval rest arg r d w c hw n qc) qt
        y q5 y'
  range_eval arg f indexed e d low high h x = absurd (cc)

  range_found :
      (f : String) (low high : Value) (a : Access) (r : Option (String × Value × Value))
      → range_access r ≡ a
      → a.scan_type ≡ range_scan
      → a.index_field ≡ some f
      → a.index_low ≡ low
      → a.index_high ≡ high
      → r ≡ some (f, low, high)
  range_found f low high a (some (g, v, w)) h t fld lo hi = ground arith
  range_found f low high a none h t fld lo hi = absurd (ground arith)

  access-IsWithin :
      (arg f : String) (indexed : List String) (e : Expr) (d : Document) (low high : Value)
      (a : Access) (m : Option (String × Value))
      → elim m [
        | some r ↦ ok (equality_access r)
        | none ↦ try_range e arg indexed >>= λ r'. ok (range_access r')
      ]
        ≡ ok a
      → a.scan_type ≡ range_scan
      → a.index_field ≡ some f
      → a.index_low ≡ low
      → a.index_high ≡ high
      → Holds rest arg e d
      → IsWithin f low high d
  access-IsWithin arg f indexed e d low high a (some (g, v)) k t fld lo hi x = absurd (ground arith)
  access-IsWithin arg f indexed e d low high a none k t fld lo hi x =
      let (r, hr, k') = call_returned (try_range e arg indexed) _ k in
      let found = range_found f low high a r (ok-injective k') t fld lo hi in
      range_eval arg f indexed e d low high (hr ∙ ap ok found) x

  -- If the plan of a one-argument lambda is a range scan, and the lambda is true of a document,
  -- then the document's field lies within the bounds of the plan, in Python's order.
  pub parse_predicate-range :
      (arg f : String) (body : Expr) (indexed : List String) (d : Document) (low high : Value)
      (a : Access)
      → parse_predicate (some (record { args = arg ∷ []; body = body })) indexed ≡ ok a
      → a.scan_type ≡ range_scan
      → a.index_field ≡ some f
      → a.index_low ≡ low
      → a.index_high ≡ high
      → Holds rest arg body d
      → IsWithin f low high d
  unfolding parse_predicate parse_body
  parse_predicate-range arg f body indexed d low high a h t fld lo hi x =
      let e = first_clause body in
      let (m, hm, k) = call_returned (try_equality e arg indexed) _ h in
      access-IsWithin arg f indexed e d low high a m k t fld lo hi (first_eval rest arg body d x)
