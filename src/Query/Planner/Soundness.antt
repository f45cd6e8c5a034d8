-- ===== src/Query/Planner/Soundness.antt =====
-- The plans for one predicate against what the predicate's lambda evaluates to.
use text.Mathlib.Text.{◌==◌ as str_eq}
use jsonpy_sql.Prelude.{
  ◌≡◌, refl, sym, ◌∙◌, String, Bool, true, false, Option, none, some, List, [], ◌∷◌, arith, ap,
  eq_iff, subst, if◌then◌else◌,
}
use jsonpy_sql.Python.Dict as D
use jsonpy_sql.Python.Dict.{string_key, beq_symm}
use jsonpy_sql.Python.Value.{
  Value, bool, str, value_eq, value_le, value_key, truthy, is_none, Document, field,
}
use jsonpy_sql.Python.Result.{
  Result, ok, err, key_error, type_error, ◌>>=◌, ok-injective, call_returned,
}
use jsonpy_sql.Query.Models.{index_lookup, value_lt}
use jsonpy_sql.Query.Planner.{
  Expr, constant, name, subscript, negated, compare1, compare2, conj, CmpOp, op_eq, op_lt, op_lte,
  op_gt, op_gte, op_other, Access, extract_subscript_field, extract_literal, negate,
  equality_access, range_access, indexed_field, match_equality, try_equality, try_range,
  first_clause, parse_body, parse_predicate,
}

-- `d[f]`
abbrev pub item : String → Document → Result Value
item f d = elim (D.get f d) [ none ↦ err key_error | some v ↦ ok v ]

abbrev pub bool_of : Result Bool → Result Value
bool_of (ok b) = ok (bool b)
bool_of (err x) = err x

-- `a <= b`
abbrev pub le_of : Value → Value → Result Bool
le_of a b = elim (value_le a b) [ none ↦ err type_error | some b ↦ ok b ]

pub truthy_bool : (c : Bool) (t : Value) → ok (bool c) ≡ ok t → truthy t ≡ true → c ≡ true
unfolding truthy
truthy_bool c t h y = subst (λ v. truthy v ≡ true) (sym (ok-injective h)) y

-- What the nodes that the planner does not tell apart evaluate to, `rest`, is left open.
module _ (rest : Expr → Document → Result Value) where
  abbrev pub compare_values : Expr → CmpOp → Value → Value → Document → Result Value
  compare_values node op_eq a b d = ok (bool (value_eq a b))
  compare_values node op_lt a b d = bool_of (value_lt a b)
  compare_values node op_lte a b d = bool_of (le_of a b)
  compare_values node op_gt a b d = bool_of (value_lt b a)
  compare_values node op_gte a b d = bool_of (le_of b a)
  compare_values node op_other a b d = rest node d

  -- The value of an expression for a document, which the name `arg` stands for.
  unfoldable pub eval : String → Expr → Document → Result Value
  eval arg (constant v) d = ok v
  eval arg (subscript (name x) (constant (str f))) d =
      if str_eq x arg then item f d else rest (subscript (name x) (constant (str f))) d
  eval arg (negated e) d = eval arg e d >>= λ v. negate v
  eval arg (compare1 l op r) d =
      eval arg l d >>= λ a. eval arg r d >>= λ b. compare_values (compare1 l op r) op a b d
  eval arg (compare2 l op m op' r) d = eval arg l d >>= λ a. eval arg m d >>= λ b.
      compare_values (compare2 l op m op' r) op a b d >>= λ t. elim (truthy t) [
        | false ↦ ok t
        | true ↦ eval arg r d >>= λ c. compare_values (compare2 l op m op' r) op' b c d
      ]
  eval arg (conj e e') d =
      eval arg e d >>= λ t. elim (truthy t) [ false ↦ ok t | true ↦ eval arg e' d ]
  eval arg node d = rest node d

  -- The expression is true of the document.
  abbrev pub Holds : String → Expr → Document → Type 0
  Holds arg e d = (v : Value) × (eval arg e d ≡ ok v) × (truthy v ≡ true)

  pub field-eval :
      (arg f : String) (e : Expr) (d : Document) (a : Value)
      → extract_subscript_field e arg ≡ some f
      → eval arg e d ≡ ok a
      → field f d ≡ a
  unfolding extract_subscript_field eval
  field-eval arg f (subscript (name x) (constant (str g))) d a h q = ground (arith, eq_iff x arg)
  field-eval arg f e d a h q = absurd (cc)

  pub literal_eval :
      (arg : String) (e : Expr) (d : Document) (v a : Value)
      → extract_literal e ≡ ok v
      → is_none v ≡ false
      → eval arg e d ≡ ok a
      → a ≡ v
  unfolding extract_literal eval
  literal_eval arg (constant w) d v a h n q = cc
  literal_eval arg (negated (constant w)) d v a h n q = cc
  literal_eval arg e d v a h n q = ground arith

  match_eval :
      (arg f : String) (indexed : List String) (e l : Expr) (d : Document) (v a b : Value)
      → match_equality e l arg indexed ≡ ok (some (f, v))
      → eval arg e d ≡ ok a
      → eval arg l d ≡ ok b
      → (field f d ≡ a) × (b ≡ v)
  unfolding match_equality indexed_field
  match_eval arg f indexed e l d v a b h p q = ground (
    arith,
    λ (x : extract_subscript_field e arg ≡ some f). field-eval arg f e d a x p,
    λ (x : extract_literal l ≡ ok v) (n : is_none v ≡ false). literal_eval arg l d v b x n q,
  )

  equality_match :
      (arg f : String) (indexed : List String) (e l : Expr) (d : Document) (v a b : Value)
      → match_equality e l arg indexed ≡ ok (some (f, v))
      → eval arg e d ≡ ok a
      → eval arg l d ≡ ok b
      → value_eq a b ≡ true
      → value_eq (field f d) v ≡ true
  equality_match arg f indexed e l d v a b h p q eq =
      let m = match_eval arg f indexed e l d v a b h p q in rw (m.0, ← m.1) eq

  equality_sides :
      (arg f : String) (indexed : List String) (l r : Expr) (d : Document) (v a b : Value)
      (m : Option (String × Value))
      → match_equality l r arg indexed ≡ ok m
      → elim m [ some x ↦ ok (some x) | none ↦ match_equality r l arg indexed ] ≡ ok (some (f, v))
      → eval arg l d ≡ ok a
      → eval arg r d ≡ ok b
      → value_eq a b ≡ true
      → value_eq (field f d) v ≡ true
  equality_sides arg f indexed l r d v a b (some x) h k p q eq =
      equality_match arg f indexed l r d v a b (h ∙ k) p q eq
  equality_sides arg f indexed l r d v a b none h k p q eq =
      equality_match arg f indexed r l d v b a k q p (beq_symm a b eq)

  -- An equality that the planner finds in an expression holds where the expression does.
  equality_eval :
      (arg f : String) (indexed : List String) (e : Expr) (d : Document) (v : Value)
      → try_equality e arg indexed ≡ ok (some (f, v))
      → Holds arg e d
      → value_eq (field f d) v ≡ true
  unfolding try_equality eval
  equality_eval arg f indexed (compare1 l op_eq r) d v h (t, q, y) =
      let (a, qa, q') = call_returned (eval arg l d) _ q in
      let (b, qb, q2) = call_returned (eval arg r d) _ q' in
      let (m, hm, k) = call_returned (match_equality l r arg indexed) _ h in
      equality_sides arg f indexed l r d v a b m hm k qa qb (truthy_bool (value_eq a b) t q2 y)
  equality_eval arg f indexed e d v h x = absurd (cc)

  conj_true :
      (arg : String) (e : Expr) (d : Document) (a t : Value) (c : Bool)
      → truthy a ≡ c
      → elim c [ false ↦ ok a | true ↦ eval arg e d ] ≡ ok t
      → truthy t ≡ true
      → truthy a ≡ true
  conj_true arg e d a t true h k y = h
  conj_true arg e d a t false h k y = rw (ok-injective k) y

  pub first_eval :
      (arg : String) (e : Expr) (d : Document) → Holds arg e d → Holds arg (first_clause e) d
  unfolding eval
  first_eval arg (conj e e') d (t, q, y) =
      let (a, qa, q') = call_returned (eval arg e d) _ q in
      (a, qa, conj_true arg e' d a t (truthy a) refl q' y)
  first_eval arg e d x = x

  lookup_found :
      (e : Expr) (arg f : String) (indexed : List String) (v : Value) (a : Access)
      (m : Option (String × Value))
      → elim m [
        | some r ↦ ok (equality_access r)
        | none ↦ try_range e arg indexed >>= λ r'. ok (range_access r')
      ]
        ≡ ok a
      → a.scan_type ≡ index_lookup
      → a.index_field ≡ some f
      → a.index_value ≡ v
      → m ≡ some (f, v)
  lookup_found e arg f indexed v a (some (g, w)) k t fld val = ground arith
  lookup_found e arg f indexed v a none k t fld val =
      let (r, h, h') = call_returned (try_range e arg indexed) _ k in absurd (not_lookup r h')
    where
      not_lookup : (r : Option (String × Value × Value)) → ok (range_access r) ≡ ok a → ⊥
      not_lookup none h' = ground arith
      not_lookup (some x) h' = ground arith

  -- If the plan of a one-argument lambda is an index lookup, and the lambda is true of a document,
  -- then the document's field equals, in Python's sense, the value looked up.
  pub parse_predicate-equality :
      (arg f : String) (body : Expr) (indexed : List String) (d : Document) (v : Value) (a : Access)
      → parse_predicate (some (record { args = arg ∷ []; body = body })) indexed ≡ ok a
      → a.scan_type ≡ index_lookup
      → a.index_field ≡ some f
      → a.index_value ≡ v
      → Holds arg body d
      → value_eq (field f d) v ≡ true
  unfolding parse_predicate parse_body
  parse_predicate-equality arg f body indexed d v a h t fld val x =
      let e = first_clause body in
      let (m, hm, k) = call_returned (try_equality e arg indexed) _ h in
      equality_eval arg f indexed e d v
        (hm ∙ ap ok (lookup_found e arg f indexed v a m k t fld val)) (first_eval arg body d x)
