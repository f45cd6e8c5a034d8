-- ===== src/Tests/Instances.antt =====
-- A concrete `SortedDict`: a list of entries, where `items` leaves out entries that another hides.
use text.Mathlib.Text.{◌==◌ as str_eq}
use text.Mathlib.TextPositions.{eq_refl}
use jsonpy_sql.Prelude.{
  ◌≡◌, refl, String, Bool, true, false, none, List, [], ◌∷◌, arith, map, filter_by, if◌then◌else◌,
}
use jsonpy_sql.Python.Dict as D
use jsonpy_sql.Python.Dict.{string_key, get-set, get-del}
use jsonpy_sql.Storage.SortedDict.{SortedDict, Postings, IsDistinct, in_range}

unfoldable pub visible_items : Postings → Postings
visible_items [] = []
visible_items ((k, ids) ∷ p) = (k, ids) ∷ D.del k (visible_items p)

IsDistinct-del : (k : String) (p : Postings) → IsDistinct p → IsDistinct (D.del k p)
unfolding D.del
IsDistinct-del k [] h = tt
IsDistinct-del k ((i, ids) ∷ p) h = keep (IsDistinct-del k p h.1) (str_eq i k)
  where
    keep :
        IsDistinct (D.del k p)
        → (b : Bool) → IsDistinct (if b then D.del k p else (i, ids) ∷ D.del k p)
    keep rest true = rest
    keep rest false = (ground (arith, get-del k i p, h.0), rest)

pub IsDistinct-visible_items : (p : Postings) → IsDistinct (visible_items p)
unfolding visible_items
IsDistinct-visible_items [] = tt
IsDistinct-visible_items ((k, ids) ∷ p) = (
  ground (arith, get-del k k (visible_items p), eq_refl k),
  IsDistinct-del k (visible_items p) (IsDistinct-visible_items p),
)

pub get-visible_items : (k : String) (p : Postings) → D.get k (visible_items p) ≡ D.get k p
unfolding visible_items D.get
get-visible_items k [] = refl
get-visible_items k ((i, ids) ∷ p) =
    ground (arith, get-del i k (visible_items p), get-visible_items k p)

pub get_nothing : (k : String) → D.get {K = String} {V = List String} k [] ≡ none
unfolding D.get
get_nothing k = refl

pub irange_refl :
    (low high : String) (p : Postings)
    → map (λ e. e.0) (filter_by (in_range low high) (visible_items p))
      ≡ map (λ e. e.0) (filter_by (in_range low high) (visible_items p))
irange_refl low high p = refl

pub get-same : (k : String) (p : Postings) → D.get k p ≡ D.get k p
get-same k p = refl

instance abbrev pub entry_list : SortedDict Postings
entry_list = record {
  empty = [];
  get = D.get;
  set = D.set;
  del = D.del;
  items = visible_items;
  irange = λ low high p. map (λ e. e.0) (filter_by (in_range low high) (visible_items p));
  of_dict = λ p. p;
  get-empty = get_nothing;
  get-set = λ k j v d. get-set k j v d;
  get-del = λ k j d. get-del k j d;
  get-items = get-visible_items;
  items-IsDistinct = IsDistinct-visible_items;
  get-of_dict = get-same;
  irange_lem = irange_refl;
}
