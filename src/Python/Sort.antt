-- ===== src/Python/Sort.antt =====
-- `list.sort(key=..., reverse=...)`, by the comparison of the keys, which may raise. Python documents
-- that the sort is stable, also in reverse: elements with equal keys stay in their order. An
-- insertion sort computes the one list that this leaves. Where two keys cannot be compared both raise,
-- since neighbours in the result have been compared.
pub mod Laws
use jsonpy_sql.Prelude.{Bool, true, false, List, [], ◌∷◌}
use jsonpy_sql.Python.Result.{Result, ok, ◌>>=◌}

module _ {A : Type 0} where
  -- Whether `y`, which stands after `x`, is to go before it
  abbrev pub precedes : (A → A → Result Bool) → Bool → A → A → Result Bool
  precedes lt false y x = lt y x
  precedes lt true y x = lt x y

  unfoldable pub insert_sorted : (A → A → Result Bool) → Bool → A → List A → Result (List A)
  insert_sorted lt reverse x [] = ok (x ∷ [])
  insert_sorted lt reverse x (y ∷ ys) = precedes lt reverse y x >>= λ b. elim b [
    | true ↦ insert_sorted lt reverse x ys >>= λ zs. ok (y ∷ zs)
    | false ↦ ok (x ∷ y ∷ ys)
  ]

  unfoldable pub list_sort : (A → A → Result Bool) → Bool → List A → Result (List A)
  list_sort lt reverse [] = ok []
  list_sort lt reverse (x ∷ xs) = do ys ← list_sort lt reverse xs; insert_sorted lt reverse x ys
