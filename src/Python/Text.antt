-- ===== src/Python/Text.antt =====
-- The order of texts, which is that of their characters' numbers.
use Prim.Native.Nat.{Ordering, compare as compare_ℕ}
use Prim.Native.Char.{code}
use Prim.Native.String.{[], ◌∷◌, then, compare}
use Prim.Native.String.compare
use jsonpy_sql.Prelude.{◌≡◌, sym, ◌∙◌, String, true, false, arith}
use jsonpy_sql.Python.Value.{str_le}

-- A comparison that finds the first text greater finds the second one less.
compare_flip : (s t : String) → compare s t ≡ Ordering.gt → compare t s ≡ Ordering.lt
compare_flip [] [] h = absurd (cc (sym compare.nil-nil ∙ h))
compare_flip [] (d ∷ t) h = absurd (cc (sym (compare.nil-cons d t) ∙ h))
compare_flip (c ∷ s) [] h = compare.nil-cons c s
compare_flip (c ∷ s) (d ∷ t) h =
    let g : then (compare_ℕ (code c) (code d)) (compare s t) ≡ Ordering.gt =
      sym (compare.cons-cons c d s t) ∙ h in
    compare.cons-cons d c t s ∙ ground (arith, g, compare_flip s t)

-- Of two texts one comes before the other.
pub str_le_total : (s t : String) → str_le s t ≡ false → str_le t s ≡ true
str_le_total s t h = ground (arith, compare_flip s t)

pub empty_le : (s : String) → str_le "" s ≡ true
empty_le [] = ground (arith, compare.nil-nil)
empty_le (c ∷ s) = ground (arith, compare.nil-cons c s)

pub str_le_trans : (s t u : String) → str_le s t ≡ true → str_le t u ≡ true → str_le s u ≡ true
str_le_trans [] t u h k = empty_le u
str_le_trans (c ∷ s) [] u h k = absurd (ground (arith, compare.cons-nil c s))
str_le_trans (c ∷ s) (d ∷ t) [] h k = absurd (ground (arith, compare.cons-nil d t))
str_le_trans (c ∷ s) (d ∷ t) (e ∷ u) h k = ground (
  arith,
  compare.cons-cons c d s t,
  compare.cons-cons d e t u,
  compare.cons-cons c e s u,
  str_le_trans s t u,
)
