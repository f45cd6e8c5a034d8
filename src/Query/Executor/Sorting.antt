-- ===== src/Query/Executor/Sorting.antt =====
-- `order_by`: when the sort returns, and in which order.
use jsonpy_sql.Prelude.{
  ◌⊎◌, ◌≡◌, refl, String, Bool, true, false, some, List, [], ◌∷◌, ◌&&◌, arith, eq_iff, filter_by,
  all_of, inl, inr, Bool-cases,
}
use jsonpy_sql.Python.Value.{
  Value, null, bool, int, str, is_none, value_le, value_eq, Document, field,
}
use jsonpy_sql.Python.Result.{ok}
use jsonpy_sql.Python.Text.{str_le_total}
use jsonpy_sql.Python.Sort.Laws.{IsSorted, list_sort-IsSorted, list_sort_stable, list_sort_returns}
use jsonpy_sql.Query.Models.{value_lt}
use jsonpy_sql.Query.Executor.{key_lt, document_lt, sorted}

-- A text or None, and a number or None
abbrev pub fits_text : Value → Bool
fits_text (str s) = true
fits_text v = is_none v

abbrev pub fits_number : Value → Bool
fits_number (str s) = false
fits_number v = true

-- The values that the documents have in a field are all texts, or all numbers, but for None.
abbrev pub IsComparable : String → List Document → Type 0
IsComparable f ds =
    (all_of (λ d. fits_text (field f d)) ds ≡ true)
    ⊎ (all_of (λ d. fits_number (field f d)) ds ≡ true)

-- `a` may stand before `b` in ascending order: `b` is None, or `a <= b`.
abbrev pub IsBefore : Value → Value → Type 0
IsBefore a b = (is_none b ≡ true) ⊎ (value_le a b ≡ some true)

abbrev pub IsPlaced : Bool → Value → Value → Type 0
IsPlaced false a b = IsBefore a b
IsPlaced true a b = IsBefore b a

-- Each two neighbours are in order by their values in the field, ascending or descending.
abbrev pub IsOrdered : String → Bool → List Document → Type 0
IsOrdered f descending [] = Unit
IsOrdered f descending (x ∷ []) = Unit
IsOrdered f descending (x ∷ y ∷ ys) =
    IsPlaced descending (field f x) (field f y) × IsOrdered f descending (y ∷ ys)

value_lt_asymm : (a b : Value) → value_lt a b ≡ ok true → value_lt b a ≡ ok false
unfolding value_le
value_lt_asymm (str s) (str t) h = ground (arith, str_le_total t s)
value_lt_asymm a b h = ground arith

key_lt_asymm : (a b : Value) → key_lt a b ≡ ok true → key_lt b a ≡ ok false
unfolding key_lt
key_lt_asymm a b h = ground (arith, value_lt_asymm a b)

not-IsBefore : (a b : Value) → key_lt b a ≡ ok false → IsBefore a b
unfolding key_lt
not-IsBefore a b h = elim (Bool-cases (is_none b)) [
  | inl t ↦ inl t
  | inr t ↦ inr (ground (arith, h, t))
]

placed :
    (f : String) (r : Bool) (ds : List Document) → IsSorted (document_lt f) r ds → IsOrdered f r ds
placed f r [] h = tt
placed f r (x ∷ []) h = tt
placed f true (x ∷ y ∷ ys) h =
    (not-IsBefore (field f y) (field f x) h.0, placed f true (y ∷ ys) h.1)
placed f false (x ∷ y ∷ ys) h =
    (not-IsBefore (field f x) (field f y) h.0, placed f false (y ∷ ys) h.1)

-- Two values of which one is less do not both equal a third.
lt_apart : (k a b : Value) → key_lt a b ≡ ok true → (value_eq a k && value_eq b k) ≡ false
unfolding key_lt value_le
lt_apart (str u) (str s) (str t) h =
    ground (arith, h, eq_iff s u, eq_iff t u, str_le_total s s, str_le_total t s)
lt_apart k a b h = ground arith

text_total :
    (a b : Value) → fits_text a ≡ true → fits_text b ≡ true → (c : Bool) × (key_lt a b ≡ ok c)
unfolding key_lt value_le
text_total null b h k = (false, refl)
text_total (str s) null h k = (true, refl)
text_total (str s) (str t) h k = (_, refl)
text_total a b h k = absurd (cc)

number_total :
    (a b : Value) → fits_number a ≡ true → fits_number b ≡ true → (c : Bool) × (key_lt a b ≡ ok c)
unfolding key_lt value_le
number_total null b h k = (false, refl)
number_total (bool m) null h k = (true, refl)
number_total (int m) null h k = (true, refl)
number_total (bool m) (bool n) h k = (_, refl)
number_total (bool m) (int n) h k = (_, refl)
number_total (int m) (bool n) h k = (_, refl)
number_total (int m) (int n) h k = (_, refl)
number_total a b h k = absurd (cc)

sorted_returns :
    (f : String) (r : Bool) (ds : List Document)
    → IsComparable f ds
    → (zs : List Document) × (sorted f r ds ≡ ok zs)
unfolding sorted
sorted_returns f r ds (inl h) =
    let (zs, e, _) =
      list_sort_returns (document_lt f) r (λ d. fits_text (field f d))
        (λ x y. text_total (field f x) (field f y)) ds h in
    (zs, e)
sorted_returns f r ds (inr h) =
    let (zs, e, _) =
      list_sort_returns (document_lt f) r (λ d. fits_number (field f d))
        (λ x y. number_total (field f x) (field f y)) ds h in
    (zs, e)

-- Where the values of a field are all texts, or all numbers, but for None, the sort by that field
-- returns. Of two neighbours in the result the value of the first is at most that of the second, or
-- the second is None; in descending order it is the other way round, so that None comes first. The
-- documents that have a value equal to a given one are the same as before, in the same order.
pub sorted_lem :
    (f : String) (descending : Bool) (ds : List Document)
    → IsComparable f ds
    → (zs : List Document) × (sorted f descending ds ≡ ok zs)
      × IsOrdered f descending zs
      × ((k : Value)
          → filter_by (λ d. value_eq (field f d) k) zs ≡ filter_by (λ d. value_eq (field f d) k) ds)
unfolding sorted
sorted_lem f descending ds h =
    let (zs, e) = sorted_returns f descending ds h in
    (
      zs,
      e,
      placed f descending zs (
          list_sort-IsSorted (document_lt f) descending
            (λ x y. key_lt_asymm (field f x) (field f y)) ds zs e),
      λ k.
          list_sort_stable (document_lt f) descending (λ d. value_eq (field f d) k)
            (λ x y. lt_apart k (field f x) (field f y)) ds zs e,
    )
