-- ===== src/Query/Aggregates/Extremes.antt =====
-- What `MinAgg` and `MaxAgg` compute.
use mathlib.Core.List.{Memᴰ}
use jsonpy_sql.Prelude.{
  ◌≡◌, refl, sym, ◌∙◌, ap, subst, String, Bool, true, false, some, List, [], ◌∷◌, arith, Bool-cases,
  inl, inr,
}
use jsonpy_sql.Python.Text.{str_le_total, str_le_trans}
use jsonpy_sql.Python.Value.{Value, str, str_le, value_le, is_none}
use jsonpy_sql.Python.Result.{Result, ok, ◌>>=◌, ok-injective, call_returned}
use jsonpy_sql.Query.Models.{
  value_lt, non_null, min_from, max_from, compute_min, compute_max, min_of, max_of,
}

value_le_trans :
    (a b c : Value) → value_le a b ≡ some true → value_le b c ≡ some true → value_le a c ≡ some true
unfolding value_le
value_le_trans (str s) (str t) (str u) h k = ground (arith, str_le_trans s t u)
value_le_trans a b c h k = ground arith

str_le_refl : (s : String) → str_le s s ≡ true
str_le_refl s = ground (arith, str_le_total s s)

value_le_refl : (v : Value) → is_none v ≡ false → value_le v v ≡ some true
unfolding value_le
value_le_refl (str s) h = ap some (str_le_refl s)
value_le_refl v h = ground arith

-- A value that is less than another is at most that, and has a place in the order.
less_le : (a b : Value) → value_lt a b ≡ ok true → value_le a b ≡ some true
unfolding value_le
less_le (str s) (str t) h = ground (arith, str_le_total t s)
less_le a b h = ground arith

less_present : (a b : Value) → value_lt a b ≡ ok true → (is_none a ≡ false) × (is_none b ≡ false)
unfolding value_le
less_present a b h = ground arith

not_less_le : (a b : Value) → value_lt a b ≡ ok false → value_le b a ≡ some true
not_less_le a b h = ground arith

-- The loop of `min` and of `max`, by the test for a better value
pick_from : (Value → Value → Result Bool) → Value → List Value → Result Value
pick_from better best [] = ok best
pick_from better best (v ∷ vs) = do
  b ← better v best
  elim b [ true ↦ pick_from better v vs | false ↦ pick_from better best vs ]

-- `R m v` for each value `v` of a list
abbrev pub Each : (Value → Value → Type 0) → Value → List Value → Type 0
Each R m [] = Unit
Each R m (v ∷ vs) = R m v × Each R m vs

one_between : (m b w : Value) (vs : List Value) → Memᴰ m (b ∷ vs) → Memᴰ m (b ∷ w ∷ vs)
one_between m b w vs (Memᴰ.head q) = Memᴰ.head q
one_between m b w vs (Memᴰ.tail t) = Memᴰ.tail (Memᴰ.tail t)

module _ (better : Value → Value → Result Bool) (AtLeast : Value → Value → Type 0)
    (refl_at : (v : Value) → is_none v ≡ false → AtLeast v v)
    (trans_at : (a b c : Value) → AtLeast a b → AtLeast b c → AtLeast a c)
    (taken : (v b : Value) → better v b ≡ ok true → (is_none v ≡ false) × AtLeast v b)
    (kept : (v b : Value) → better v b ≡ ok false → AtLeast b v) where
  -- What the loop picks is one of the values, and is at least as good as each of them.
  pick_from_lem :
      (best m : Value) (vs : List Value)
      → is_none best ≡ false
      → pick_from better best vs ≡ ok m
      → Memᴰ m (best ∷ vs) × Each AtLeast m (best ∷ vs)
  unfolding pick_from
  pick_from_lem best m [] n h =
      let same : best ≡ m = ok-injective h in
      (Memᴰ.head (sym same), (subst (λ x. AtLeast x best) same (refl_at best n), tt))
  pick_from_lem best m (w ∷ vs) n h =
      let (b, p, q) = call_returned (better w best) _ h in
      go (pick_from_lem w m vs) (pick_from_lem best m vs n) b p q
    where
      go :
          (is_none w ≡ false
            → pick_from better w vs ≡ ok m
            → Memᴰ m (w ∷ vs) × Each AtLeast m (w ∷ vs))
          → (pick_from better best vs ≡ ok m → Memᴰ m (best ∷ vs) × Each AtLeast m (best ∷ vs))
          → (b : Bool) → better w best ≡ ok b
          → elim b [ true ↦ pick_from better w vs | false ↦ pick_from better best vs ] ≡ ok m
          → Memᴰ m (best ∷ w ∷ vs) × Each AtLeast m (best ∷ w ∷ vs)
      go one other true p q =
          let (mem, (at, each)) = one (taken w best p).0 q in
          (Memᴰ.tail mem, (trans_at m w best at (taken w best p).1, (at, each)))
      go one other false p q =
          let (mem, (at, each)) = other q in
          (one_between m best w vs mem, (at, (trans_at m best w at (kept w best p), each)))

-- `a <= b`, and `a >= b`
abbrev pub IsAtMost : Value → Value → Type 0
IsAtMost a b = value_le a b ≡ some true

abbrev pub IsAtLeast : Value → Value → Type 0
IsAtLeast a b = value_le b a ≡ some true

min_from_pick : (best : Value) (vs : List Value) → min_from best vs ≡ pick_from value_lt best vs
unfolding min_from pick_from
min_from_pick best [] = refl
min_from_pick best (v ∷ vs) = ground (arith, min_from_pick v vs, min_from_pick best vs)

max_from_pick :
    (best : Value) (vs : List Value) → max_from best vs ≡ pick_from (λ v b. value_lt b v) best vs
unfolding max_from pick_from
max_from_pick best [] = refl
max_from_pick best (v ∷ vs) = ground (arith, max_from_pick v vs, max_from_pick best vs)

first_present : (v : Value) (vs us : List Value) → non_null us ≡ v ∷ vs → is_none v ≡ false
first_present v vs [] h = absurd (cc)
first_present v vs (u ∷ us) h = elim (Bool-cases (is_none u)) [
  | inl t ↦ first_present v vs us (ground (arith, t))
  | inr t ↦ let same : u ≡ v = ground (arith, t) in subst (λ x. is_none x ≡ false) same t
]

-- Where `MinAgg` and `MaxAgg` both return for a list with a value other than None, their results are
-- among its values other than None, and each of these lies between the two results.
pub compute_min-compute_max :
    (vs ws : List Value) (v low high : Value)
    → non_null vs ≡ v ∷ ws
    → compute_min vs ≡ ok low
    → compute_max vs ≡ ok high
    → Memᴰ low (non_null vs)
      × Memᴰ high (non_null vs)
      × Each IsAtMost low (non_null vs)
      × Each IsAtLeast high (non_null vs)
unfolding compute_min compute_max
compute_min-compute_max vs ws v low high h k l =
    let present = first_present v ws vs h in
    let (a, b) =
      pick_from_lem value_lt IsAtMost value_le_refl value_le_trans
        (λ x y t. ((less_present x y t).0, less_le x y t)) not_less_le v low ws present
        (sym (min_from_pick v ws) ∙ sym (ap min_of h) ∙ k) in
    let (c, d) =
      pick_from_lem (λ x y. value_lt y x) IsAtLeast value_le_refl
        (λ x y z t u. value_le_trans z y x u t) (λ x y t. ((less_present y x t).1, less_le y x t))
        (λ x y t. not_less_le y x t) v high ws present
        (sym (max_from_pick v ws) ∙ sym (ap max_of h) ∙ l) in
    rw (h) (a, c, b, d)
