-- ===== src/Query/Aggregates/Rows.antt =====
-- The rows that `apply_aggregates` makes of a list of documents.
use text.Mathlib.Text.{◌==◌ as str_eq}
use mathlib.Core.List.{Memᴰ}
use jsonpy_sql.Prelude.{
  ◌≡◌, refl, sym, ◌∙◌, ap, subst, String, Bool, true, false, Option, none, some, List, [], ◌∷◌,
  ◌||◌, arith, eq_iff, if◌then◌else◌, Bool-cases, inl, inr,
}
use jsonpy_sql.Python.Dict as D
use jsonpy_sql.Python.Dict.{Dict, string_key, get-set, get-cong, beq_symm, IsDict, set-IsDict}
use jsonpy_sql.Python.Value.{Value, Document, field, value_eq, or_null}
use jsonpy_sql.Python.Result.{ok, ok-injective, call_returned}
use jsonpy_sql.Query.Models.{AggSpec}
use jsonpy_sql.Query.Aggregates.{
  tuple_eq, tuple_eq_refl, tuple_key, group_key, Groups, members, group_from, compute,
  group_fields_of, aggregate_fields, aggregate_groups, apply_aggregates,
}
use jsonpy_sql.Query.Aggregates.Groups.{group_from_lem}
use jsonpy_sql.Query.Aggregates.Keys.{
  group_of, has_key, IsDistinct, keys, has_key-keys, keys-IsDistinct, group_from-IsDict,
  group_of_own,
}

-- Whether a name is among the names
abbrev pub has_name : String → List String → Bool
has_name f [] = false
has_name f (g ∷ gs) = str_eq g f || has_name f gs

-- The row of a group: each aggregate has the value computed from the documents of the group, and
-- each other group-by field has the value that these documents have there.
abbrev pub IsRow :
    List String → Dict String AggSpec → List Document → List Value → Document → Type 0
IsRow fs aggs docs k row =
    ((n : String) (s : AggSpec)
      → D.get n aggs ≡ some s
      → (v : Value) × (compute s (group_of fs docs k) ≡ ok v) × (D.get n row ≡ some v))
    × ((f : String) (d : Document)
        → has_name f fs ≡ true
        → D.contains f aggs ≡ false
        → tuple_eq (group_key d fs) k ≡ true
        → value_eq (field f d) (field f row) ≡ true)

-- One row for each key, in order
abbrev pub AreRows :
    List String → Dict String AggSpec → List Document → List (List Value) → List Document → Type 0
AreRows fs aggs docs [] [] = Unit
AreRows fs aggs docs (k ∷ ks) (row ∷ rows) = IsRow fs aggs docs k row × AreRows fs aggs docs ks rows
AreRows fs aggs docs _ _ = ⊥

-- What `zip(group_fields, key)` puts into a row
field-group_fields_of :
    (fs : List String) (k : List Value) (row : Document) (f : String) (d : Document)
    → tuple_eq (group_key d fs) k ≡ true
    → (has_name f fs || value_eq (field f d) (field f row)) ≡ true
    → value_eq (field f d) (field f (group_fields_of fs k row)) ≡ true
unfolding group_fields_of
field-group_fields_of [] [] row f d h t = t
field-group_fields_of [] (v ∷ vs) row f d h t = absurd (cc)
field-group_fields_of (g ∷ fs) [] row f d h t = absurd (cc)
field-group_fields_of (g ∷ fs) (v ∷ vs) row f d h t =
    field-group_fields_of fs vs (D.set g v row) f d (ground arith)
      (ground (arith, get-set g f v row, eq_iff g f))

get-aggregate_fields :
    (n : String) (aggs : Dict String AggSpec) (docs : List Document) (row row' : Document)
    → aggregate_fields aggs docs row ≡ ok row'
    → D.contains n aggs ≡ false
    → D.get n row' ≡ D.get n row
unfolding aggregate_fields D.get
get-aggregate_fields n [] docs row row' h t = ap (D.get n) (sym (ok-injective h))
get-aggregate_fields n ((m, s) ∷ aggs) docs row row' h t =
    let (v, p, q) = call_returned (compute s docs) _ h in
    get-aggregate_fields n aggs docs (D.set m v row) row' q (ground arith)
    ∙ get-set m n v row
    ∙ ground arith

computed :
    (n : String) (s : AggSpec) (aggs : Dict String AggSpec) (docs : List Document)
    (row row' : Document)
    → IsDict aggs
    → aggregate_fields aggs docs row ≡ ok row'
    → D.get n aggs ≡ some s
    → (v : Value) × (compute s docs ≡ ok v) × (D.get n row' ≡ some v)
unfolding aggregate_fields D.get
computed n s [] docs row row' u h t = absurd (cc)
computed n s ((m, s') ∷ aggs) docs row row' u h t =
    let (v, p, q) = call_returned (compute s' docs) _ h in
    elim (Bool-cases (str_eq m n)) [
      | inl e ↦ (
        v,
        ap (λ x. compute x docs) (ground arith) ∙ p,
        get-aggregate_fields n aggs docs (D.set m v row) row' q
              (ground (arith, get-cong m n aggs e, u.0))
            ∙ get-set m n v row
            ∙ rw (e) refl,
      )
      | inr e ↦ computed n s aggs docs (D.set m v row) row' u.1 q (ground arith)
    ]

aggregate_fields-IsRow :
    (fs : List String) (aggs : Dict String AggSpec) (docs ds : List Document) (k : List Value)
    (row : Document)
    → IsDict aggs
    → ds ≡ group_of fs docs k
    → aggregate_fields aggs ds (group_fields_of fs k []) ≡ ok row
    → IsRow fs aggs docs k row
aggregate_fields-IsRow fs aggs docs ds k row u same h = (
  λ n s t.
      let (v, p, q) = computed n s aggs ds (group_fields_of fs k []) row u h t in
      (v, ap (compute s) (sym same) ∙ p, q),
  λ f d named plain t.
      ap (λ o. value_eq (field f d) (or_null o))
        (get-aggregate_fields f aggs ds (group_fields_of fs k []) row h plain)
      ∙ field-group_fields_of fs k [] f d t (rw (named) refl),
)

aggregate_groups-AreRows :
    (fs : List String) (aggs : Dict String AggSpec) (docs : List Document) (g : Groups)
    (rows : List Document)
    → IsDict aggs
    → IsDict g
    → ((k : List Value) (ds : List Document) → D.get k g ≡ some ds → ds ≡ group_of fs docs k)
    → aggregate_groups fs aggs g ≡ ok rows
    → AreRows fs aggs docs (keys g) rows
unfolding aggregate_groups D.get
aggregate_groups-AreRows fs aggs docs [] [] u w at h = tt
aggregate_groups-AreRows fs aggs docs [] (r ∷ rows) u w at h = absurd (cc)
aggregate_groups-AreRows fs aggs docs ((k, ds) ∷ g) rows u w at h =
    let (row, p, q) = call_returned (aggregate_fields aggs ds (group_fields_of fs k [])) _ h in
    let (rows', r, s) = call_returned (aggregate_groups fs aggs g) _ q in
    subst (AreRows fs aggs docs (k ∷ keys g)) (ok-injective s) (
      aggregate_fields-IsRow fs aggs docs ds k row u (at k ds (rw (tuple_eq_refl k) refl)) p,
      aggregate_groups-AreRows fs aggs docs g rows' u w.1 (λ j es t. at j es (later j es t)) r,
    )
  where
    later :
        (j : List Value) (es : List Document)
        → D.get j g ≡ some es
        → (if tuple_eq k j then some ds else D.get j g) ≡ some es
    later j es t = ground (arith, get-cong k j g, w.0)

-- Let no name be given to two aggregates. The rows that `apply_aggregates` returns are one for each
-- of a list of distinct keys, which has the key of every document; the row of a key has in each
-- aggregate what that computes from the documents with this key, in their order, and in each other
-- group-by field the value that these documents have there.
pub apply_aggregates-AreRows :
    (docs : List Document) (fs : List String) (aggs : Dict String AggSpec) (rows : List Document)
    → IsDict aggs
    → apply_aggregates docs fs aggs ≡ ok rows
    → (ks : List (List Value)) × IsDistinct ks
      × ((d : Document) → Memᴰ d docs → has_key (group_key d fs) ks ≡ true)
      × AreRows fs aggs docs ks rows
unfolding apply_aggregates D.get
apply_aggregates-AreRows docs fs aggs rows u h =
    let g = group_from fs docs [] in
    let unique : IsDict g = group_from-IsDict fs docs [] tt in
    (
      keys g,
      keys-IsDistinct g unique,
      λ d m. has_key-keys (group_key d fs) g ∙ there d m (D.get (group_key d fs) g) refl,
      aggregate_groups-AreRows fs aggs docs g rows u unique
          (λ k ds t. ap members (sym t) ∙ group_from_lem fs k docs) h,
    )
  where
    there :
        (d : Document)
        → Memᴰ d docs
        → (o : Option (List Document)) → D.get (group_key d fs) (group_from fs docs []) ≡ o
        → D.contains (group_key d fs) (group_from fs docs []) ≡ true
    there d m (some ds) e = rw (D.contains, e) refl
    there d m none e =
        absurd
          (group_of_own fs docs d m (sym (group_from_lem fs (group_key d fs) docs) ∙ ap members e))
