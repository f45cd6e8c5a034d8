-- ===== src/Storage/IndexManager/Index.antt =====
-- One index: the rounds of the loops in `_add_to_indexes` and `_remove_from_indexes`, and how often
-- an id is listed under a key after each.
use text.Mathlib.Text.{◌==◌ as str_eq}
use jsonpy_sql.Prelude.{
  ℕ, ◌+◌, ◌-◌, ◌≡◌, String, Bool, true, false, Option, none, some, List, [], ◌∷◌, ◌++◌, arith,
  eq_iff, ltb, eqb, if◌then◌else◌, ◌&&◌,
}
use jsonpy_sql.Storage.SortedDict.{SortedDict}

-- `x in xs`
abbrev pub str_mem : String → List String → Bool
str_mem x [] = false
str_mem x (y ∷ ys) = if str_eq y x then true else str_mem x ys

-- `xs.remove(x)`, where the `ValueError` for a missing `x` is dropped
abbrev pub str_remove : String → List String → List String
str_remove x [] = []
str_remove x (y ∷ ys) = if str_eq y x then ys else y ∷ str_remove x ys

-- How often `x` stands in a list.
abbrev pub count : String → List String → ℕ
count x [] = 0
count x (y ∷ ys) = (if str_eq y x then 1 else 0) + count x ys

abbrev pub or_nil : Option (List String) → List String
or_nil none = []
or_nil (some ids) = ids

abbrev is_nil : List String → Bool
is_nil [] = true
is_nil (x ∷ xs) = false

count-snoc :
    (x y : String) (xs : List String)
    → count x (xs ++ y ∷ []) ≡ count x xs + (if str_eq y x then 1 else 0)
count-snoc x y [] = ground arith
count-snoc x y (z ∷ zs) = ground (arith, count-snoc x y zs)

pub count-append : (j : String) (xs ys : List String) → count j (xs ++ ys) ≡ count j xs + count j ys
count-append j [] ys = ground arith
count-append j (x ∷ xs) ys = ground (arith, count-append j xs ys)

mem-count : (x : String) (xs : List String) → str_mem x xs ≡ ltb 0 (count x xs)
mem-count x [] = ground arith
mem-count x (y ∷ ys) = ground (arith, mem-count x ys)

count-remove :
    (x y : String) (xs : List String)
    → count x (str_remove y xs) ≡ (if str_eq y x then count x xs - 1 else count x xs)
count-remove x y [] = ground arith
count-remove x y (z ∷ zs) = ground (arith, count-remove x y zs, eq_iff z x, eq_iff z y, eq_iff y x)

module _ {S : Type 0} ⦃sd : SortedDict S⦄ where
  -- `idx.get(key, [])`
  abbrev pub ids_at : String → S → List String
  ids_at key idx = or_nil (sd.get key idx)

  abbrev has_key : String → S → Bool
  has_key key idx = elim (sd.get key idx) [ none ↦ false | some _ ↦ true ]

  unfoldable pub add_to_index : String → String → S → S
  add_to_index doc_id key idx =
      let idx' = if has_key key idx then idx else sd.set key [] idx in
      let ids = ids_at key idx' in
      if str_mem doc_id ids then idx' else sd.set key (ids ++ doc_id ∷ []) idx'

  unfoldable pub remove_from_index : String → String → S → S
  remove_from_index doc_id key idx =
      if has_key key idx
      then (let ids = str_remove doc_id (ids_at key idx) in
          let idx' = sd.set key ids idx in
          if is_nil (ids_at key idx') then sd.del key idx' else idx')
      else idx

  ids_at-set :
      (key k : String) (ids : List String) (idx : S)
      → ids_at k (sd.set key ids idx) ≡ (if str_eq key k then ids else ids_at k idx)
  ids_at-set key k ids idx = ground (arith, sd.get-set key k ids idx)

  ids_at-del :
      (key k : String) (idx : S)
      → ids_at k (sd.del key idx) ≡ (if str_eq key k then [] else ids_at k idx)
  ids_at-del key k idx = ground (arith, sd.get-del key k idx)

  -- The round in `_add_to_indexes`, as the lists that it leaves.
  pub ids_at-add_to_index :
      (id key k : String) (idx : S)
      → ids_at k (add_to_index id key idx) ≡ (
          if str_eq key k
          then (if str_mem id (ids_at k idx) then ids_at k idx else ids_at k idx ++ id ∷ [])
          else ids_at k idx)
  unfolding add_to_index
  ids_at-add_to_index id key k idx = ground (
    arith,
    sd.get-set key k [] idx,
    sd.get-set key key [] idx,
    sd.get-set key k (ids_at key idx ++ id ∷ []) idx,
    sd.get-set key k (id ∷ []) (sd.set key [] idx),
    eq_iff key k,
    eq_iff key key,
  )

  -- The round in `_remove_from_indexes`, as the lists that it leaves.
  pub ids_at-remove_from_index :
      (id key k : String) (idx : S)
      → ids_at k (remove_from_index id key idx)
        ≡ (if str_eq key k then str_remove id (ids_at k idx) else ids_at k idx)
  unfolding remove_from_index
  ids_at-remove_from_index id key k idx = ground (
    arith,
    sd.get-set key k (str_remove id (ids_at key idx)) idx,
    sd.get-set key key (str_remove id (ids_at key idx)) idx,
    sd.get-del key k (sd.set key (str_remove id (ids_at key idx)) idx),
    eq_iff key k,
    eq_iff key key,
  )

  -- Adding lists the id under its key if it was not there, and changes no other count.
  pub count-add_to_index :
      (id key j k : String) (idx : S)
      → count j (ids_at k (add_to_index id key idx)) ≡ (
          if str_eq key k && (str_eq id j && eqb (count j (ids_at k idx)) 0)
          then 1
          else count j (ids_at k idx))
  count-add_to_index id key j k idx =
      rw (ids_at-add_to_index id key k idx)
        (ground (arith, mem-count id (ids_at k idx), count-snoc j id (ids_at k idx), eq_iff id j))

  pub count-remove_from_index :
      (id key j k : String) (idx : S)
      → count j (ids_at k (remove_from_index id key idx)) ≡ (
          if str_eq key k && str_eq id j
          then count j (ids_at k idx) - 1
          else count j (ids_at k idx))
  count-remove_from_index id key j k idx =
      rw (ids_at-remove_from_index id key k idx) (ground (arith, count-remove j id (ids_at k idx)))
