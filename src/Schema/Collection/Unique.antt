-- ===== src/Schema/Collection/Unique.antt =====
-- The check of unique fields against the documents that a collection holds.
use text.Mathlib.Text.{◌==◌ as str_eq}
use jsonpy_sql.Prelude.{
  Bool, subst, ◌≤◌, ◌⊎◌, ◌≡◌, refl, String, Option, none, some, List, [], ◌∷◌, arith, eq_iff, ◌&&◌,
  not, if◌then◌else◌, Bool-cases, inl, inr, true, false,
}
use jsonpy_sql.Python.Dict.{string_key, get-set}
use jsonpy_sql.Python.Value.{is_none, to_str, Document, field}
use jsonpy_sql.Python.Result.{Result, ok, ◌>>=◌, call_returned}
use jsonpy_sql.Storage.SortedDict.{SortedDict}
use jsonpy_sql.Storage.DocumentStore.{id_key, strip_id}
use jsonpy_sql.Storage.IndexManager.{str_mem, count, has_index_for}
use jsonpy_sql.Storage.IndexManager.Contents.{Holdings, IsChange}
use jsonpy_sql.Storage.IndexManager.Queries.{has_text}
use jsonpy_sql.Storage.Engine.{Engine, lookup, with_id}
use jsonpy_sql.Storage.Engine.Indexed.{IsIndexed, holdings, lookup-IsIndexed, field-with_id}
use jsonpy_sql.Schema.Constraints.{check_insert, check_update, raise_if_any, others}

-- Whether two documents have values for the field with the same text.
abbrev pub clash : String → Option Document → Option Document → Bool
clash f none o = false
clash f (some d) none = false
clash f (some d) (some d') =
    not (is_none (field f d))
    && (not (is_none (field f d')) && str_eq (to_str (field f d)) (to_str (field f d')))

-- Of the documents under different ids, no two clash in the field.
abbrev pub NoClash : String → Holdings → Type 0
NoClash f cur = (i j : String) → (clash f (cur i) (cur j) && not (str_eq i j)) ≡ false

-- No other document has the text of this one's value for the field.
abbrev pub IsFree : String → String → Document → Holdings → Type 0
IsFree f id d cur =
    (j : String)
    → (not (is_none (field f d)) && (has_text f (to_str (field f d)) (cur j) && not (str_eq id j)))
      ≡ false

pub field-written :
    (f id : String) (d : Document)
    → str_eq id_key f ≡ false
    → field f (with_id id (strip_id d)) ≡ field f d
field-written f id d h = rw (← field-with_id f id d, get-set, h) refl

clash-new :
    (f id i : String) (d d' : Document) (o : Option Document)
    → field f d' ≡ field f d
    → (not (is_none (field f d)) && (has_text f (to_str (field f d)) o && not (str_eq id i)))
      ≡ false
    → ((clash f (some d') o && not (str_eq id i)) ≡ false)
      × ((clash f o (some d') && not (str_eq i id)) ≡ false)
clash-new f id i d d' none same h = (refl, refl)
clash-new f id i d d' (some x) same h = rw same (
  ground (
    arith,
    eq_iff (to_str (field f d)) (to_str (field f x)),
    eq_iff (to_str (field f x)) (to_str (field f d)),
  ),
  ground (
    arith,
    eq_iff (to_str (field f d)) (to_str (field f x)),
    eq_iff (to_str (field f x)) (to_str (field f d)),
    eq_iff i id,
    eq_iff id i,
  ),
)

-- A free document can take the place of another, or be new.
pub change-NoClash :
    (f id : String) (d d' : Document) (cur cur' : Holdings)
    → field f d' ≡ field f d
    → IsChange id (some d') cur cur'
    → IsFree f id d cur
    → NoClash f cur
    → NoClash f cur'
change-NoClash f id d d' cur cur' same ch free h i j =
    let (left, _) = clash-new f id j d d' (cur j) same (free j) in
    let (_, right) = clash-new f id i d d' (cur i) same (free i) in
    elim (Bool-cases (str_eq id i)) [
      | inl p ↦ elim (Bool-cases (str_eq id j)) [
        | inl q ↦ rw (ch i, ch j, p, q) (ground (arith, eq_iff id i, eq_iff id j, eq_iff i j))
        | inr q ↦ rw (ch i, ch j, p, q, ← (eq_iff id i).0 p) left
      ]
      | inr p ↦ elim (Bool-cases (str_eq id j)) [
        | inl q ↦ rw (ch i, ch j, p, q, ← (eq_iff id j).0 q) right
        | inr q ↦ rw (ch i, ch j, p, q) (h i j)
      ]
    ]

clash-none : (f : String) (o : Option Document) → clash f o none ≡ false
clash-none f none = refl
clash-none f (some d) = refl

-- A document can go.
pub remove-NoClash :
    (f id : String) (cur cur' : Holdings)
    → IsChange id none cur cur'
    → NoClash f cur
    → NoClash f cur'
remove-NoClash f id cur cur' ch h i j = elim (Bool-cases (str_eq id i)) [
  | inl p ↦ rw (ch i, p) refl
  | inr p ↦ elim (Bool-cases (str_eq id j)) [
    | inl q ↦ rw (ch i, ch j, p, q, clash-none f (cur i)) refl
    | inr q ↦ rw (ch i, ch j, p, q) (h i j)
  ]
]

count-others :
    (j id : String) (ids : List String)
    → count j (others id ids) ≡ (if str_eq j id then 0 else count j ids)
count-others j id [] = ground arith
count-others j id (x ∷ xs) =
    ground (arith, count-others j id xs, eq_iff x j, eq_iff x id, eq_iff j id)

-- What a check that returns has found about one field, and about the others.
passed :
    (b : Bool) (call : Result (List String)) (pick : List String → List String)
    (rest : Result (Unit {0})) {u : Unit {0}}
    → (if b then rest else (call >>= λ ids. raise_if_any (pick ids) rest)) ≡ ok u
    → (rest ≡ ok u) × ((b ≡ true) ⊎ ((ids : List String) × (call ≡ ok ids) × (pick ids ≡ [])))
passed true call pick rest h = (h, inl refl)
passed false call pick rest h =
    let (ids, p, q) = call_returned call (λ ids. raise_if_any (pick ids) rest) h in
    go ids (pick ids) refl q p
  where
    go :
        (ids x : List String) {u : Unit {0}}
        → pick ids ≡ x
        → raise_if_any x rest ≡ ok u
        → call ≡ ok ids
        → (rest ≡ ok u)
          × ((false ≡ true) ⊎ ((ids : List String) × (call ≡ ok ids) × (pick ids ≡ [])))
    go ids [] e q p = (q, inr (ids, p, e))
    go ids (_ ∷ _) e q p = absurd (cc)

module _ {S : Type 0} ⦃sd : SortedDict S⦄ where
  -- A value that is found for no other document is free.
  found-IsFree :
      (col f id : String) (d : Document) (e : Engine S) (ids : List String)
      → (x : IsIndexed col e) → has_index_for f x.0 ≡ true
      → lookup col f (field f d) e ≡ ok ids
      → ((j : String) → (if str_eq id j then 0 else count j ids) ≡ 0)
      → IsFree f id d (holdings col e)
  found-IsFree col f id d e ids x has found none_other j =
      ground (arith, none_other j, lookup-IsIndexed col f (field f d) e ids x has found j)

  checked-IsFree :
      (col f id g : String) (d : Document) (e : Engine S) (pick : List String → List String)
      → (x : IsIndexed col e) → has_index_for f x.0 ≡ true
      → ((j : String) (ids : List String)
          → (if str_eq id j then 0 else count j ids) ≤ count j (pick ids))
      → g ≡ f
      → ((is_none (field g d) ≡ true)
          ⊎ ((ids : List String) × (lookup col g (field g d) e ≡ ok ids) × (pick ids ≡ [])))
      → IsFree f id d (holdings col e)
  checked-IsFree col f id g d e pick x has most same (inl q) j =
      let none : is_none (field f d) ≡ true = subst (λ g. is_none (field g d) ≡ true) same q in
      ground arith
  checked-IsFree col f id g d e pick x has most same (inr (ids, found, q)) j =
      found-IsFree col f id d e ids x has
        (subst (λ g. lookup col g (field g d) e ≡ ok ids) same found)
        (λ j. ground (arith, most j ids)) j

  -- A check that passes has found the value of each unique field free, for any id.
  pub check_insert-IsFree :
      (col f id : String) (fs : List String) (d : Document) (e : Engine S) {u : Unit {0}}
      → (x : IsIndexed col e) → has_index_for f x.0 ≡ true
      → str_mem f fs ≡ true
      → check_insert col fs d e ≡ ok u
      → IsFree f id d (holdings col e)
  unfolding check_insert
  check_insert-IsFree col f id [] d e x has m h = absurd (cc)
  check_insert-IsFree col f id (g ∷ fs) d e x has m h =
      let (rest, here) =
        passed (is_none (field g d)) (lookup col g (field g d) e) (λ ids. ids)
          (check_insert col fs d e) h in
      elim (Bool-cases (str_eq g f)) [
        | inl q ↦
            checked-IsFree col f id g d e (λ ids. ids) x has (λ j ids. ground arith)
              ((eq_iff g f).0 q) here
        | inr q ↦ check_insert-IsFree col f id fs d e x has (ground arith) rest
      ]

  -- The same, for the id that is updated.
  pub check_update-IsFree :
      (col f id : String) (fs : List String) (d : Document) (e : Engine S) {u : Unit {0}}
      → (x : IsIndexed col e) → has_index_for f x.0 ≡ true
      → str_mem f fs ≡ true
      → check_update col fs id d e ≡ ok u
      → IsFree f id d (holdings col e)
  unfolding check_update
  check_update-IsFree col f id [] d e x has m h = absurd (cc)
  check_update-IsFree col f id (g ∷ fs) d e x has m h =
      let (rest, here) =
        passed (is_none (field g d)) (lookup col g (field g d) e) (others id)
          (check_update col fs id d e) h in
      elim (Bool-cases (str_eq g f)) [
        | inl q ↦
            checked-IsFree col f id g d e (others id) x has
              (λ j ids. ground (arith, count-others j id ids, eq_iff id j, eq_iff j id))
              ((eq_iff g f).0 q) here
        | inr q ↦ check_update-IsFree col f id fs d e x has (ground arith) rest
      ]
