-- ===== src/Query/Aggregates/Keys.antt =====
-- The keys of the groups that `group_by` makes.
use mathlib.Core.List.{Memᴰ}
use jsonpy_sql.Prelude.{
  ◌≡◌, refl, ◌∙◌, ap, String, Bool, false, List, [], ◌∷◌, ◌||◌, arith, filter_by, map,
}
use jsonpy_sql.Python.Dict as D
use jsonpy_sql.Python.Dict.{Dict, string_key, get-set, get-cong, beq_symm, IsDict, set-IsDict}
use jsonpy_sql.Python.Value.{Value, Document}
use jsonpy_sql.Query.Aggregates.{
  tuple_eq, tuple_eq_refl, tuple_key, group_key, Groups, add_to_group, group_from,
}

-- The documents of the group of a key
abbrev pub group_of : List String → List Document → List Value → List Document
group_of fs docs k = filter_by (λ d. tuple_eq (group_key d fs) k) docs

abbrev pub has_key : List Value → List (List Value) → Bool
has_key k [] = false
has_key k (i ∷ ks) = tuple_eq i k || has_key k ks

abbrev pub IsDistinct : List (List Value) → Type 0
IsDistinct [] = Unit
IsDistinct (k ∷ ks) = (has_key k ks ≡ false) × IsDistinct ks

abbrev pub keys : Groups → List (List Value)
keys g = map (λ x. x.0) g

pub has_key-keys : (k : List Value) (g : Groups) → has_key k (keys g) ≡ D.contains k g
unfolding D.get
has_key-keys k [] = refl
has_key-keys k ((i, ds) ∷ g) = ground (arith, has_key-keys k g)

pub keys-IsDistinct : (g : Groups) → IsDict g → IsDistinct (keys g)
keys-IsDistinct [] h = tt
keys-IsDistinct ((k, ds) ∷ g) h =
    (has_key-keys k g ∙ rw (D.contains, h.0) refl, keys-IsDistinct g h.1)

pub group_from-IsDict :
    (fs : List String) (docs : List Document) (g : Groups)
    → IsDict g
    → IsDict (group_from fs docs g)
unfolding group_from add_to_group
group_from-IsDict fs [] g h = h
group_from-IsDict fs (d ∷ docs) g h =
    group_from-IsDict fs docs (add_to_group fs d g) (set-IsDict (group_key d fs) _ g h)

-- A document is in the group of its key.
pub group_of_own :
    (fs : List String) (docs : List Document) (d : Document)
    → Memᴰ d docs
    → group_of fs docs (group_key d fs) ≡ []
    → ⊥
group_of_own fs [] d m h = elim m [ ]
group_of_own fs (c ∷ docs) d (Memᴰ.head q) h =
    ground (
      arith,
      ap (λ x. tuple_eq (group_key x fs) (group_key d fs)) q,
      tuple_eq_refl (group_key d fs),
    )
group_of_own fs (c ∷ docs) d (Memᴰ.tail m) h = ground (arith, group_of_own fs docs d m)
