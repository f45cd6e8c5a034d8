-- ===== src/Query/Aggregates/Groups.antt =====
-- What `group_by` puts into each group.
use mathlib.Core.List.{append_assoc, append-nil}
use jsonpy_sql.Prelude.{
  ◌≡◌, refl, sym, ◌∙◌, ap, String, Bool, true, false, List, [], ◌∷◌, ◌++◌, arith, filter_by,
  if◌then◌else◌,
}
use jsonpy_sql.Python.Dict as D
use jsonpy_sql.Python.Dict.{get-set, get-cong}
use jsonpy_sql.Python.Value.{Value, Document}
use jsonpy_sql.Query.Aggregates.{
  tuple_eq, tuple_key, group_key, Groups, members, add_to_group, group_from,
}

members-add_to_group :
    (fs : List String) (k : List Value) (d : Document) (g : Groups)
    → members (D.get k (add_to_group fs d g))
      ≡ members (D.get k g) ++ (if tuple_eq (group_key d fs) k then d ∷ [] else [])
unfolding add_to_group
members-add_to_group fs k d g = ground (
  arith,
  get-set (group_key d fs) k (members (D.get (group_key d fs) g) ++ d ∷ []) g,
  get-cong (group_key d fs) k g,
  append-nil (members (D.get k g)),
)

one_more :
    (b : Bool) (d : Document) (ds : List Document)
    → (if b then d ∷ [] else []) ++ ds ≡ (if b then d ∷ ds else ds)
one_more true d ds = refl
one_more false d ds = refl

-- The groups that are there, with the documents of a list added.
members-group_from :
    (fs : List String) (k : List Value) (docs : List Document) (g : Groups)
    → members (D.get k (group_from fs docs g))
      ≡ members (D.get k g) ++ filter_by (λ d. tuple_eq (group_key d fs) k) docs
unfolding group_from
members-group_from fs k [] g = sym (append-nil (members (D.get k g)))
members-group_from fs k (d ∷ docs) g =
    let rest = filter_by (λ x. tuple_eq (group_key x fs) k) docs in
    members-group_from fs k docs (add_to_group fs d g)
    ∙ ap (λ m. m ++ rest) (members-add_to_group fs k d g)
    ∙ append_assoc (members (D.get k g)) (if tuple_eq (group_key d fs) k then d ∷ [] else []) rest
    ∙ ap (λ m. members (D.get k g) ++ m) (one_more (tuple_eq (group_key d fs) k) d rest)

-- The group of a key has the documents whose group-by fields equal the key, in their order.
pub group_from_lem :
    (fs : List String) (k : List Value) (docs : List Document)
    → members (D.get k (group_from fs docs [])) ≡ filter_by (λ d. tuple_eq (group_key d fs) k) docs
unfolding D.get
group_from_lem fs k docs = members-group_from fs k docs []
