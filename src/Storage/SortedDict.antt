-- ===== src/Storage/SortedDict.antt =====
-- The interface of `sortedcontainers.SortedDict` as `IndexManager` uses it: a dict from key texts to
-- lists of document ids, with range queries. The package is not part of the repository, so its
-- carrier and operations are parameters, with the laws that its documentation gives.
use text.Mathlib.Text.{◌==◌ as str_eq}
use jsonpy_sql.Prelude.{
  ◌≡◌, Bool, String, Option, none, some, List, [], ◌∷◌, map, ◌&&◌, filter_by, if◌then◌else◌,
}
use jsonpy_sql.Python.Dict as D
use jsonpy_sql.Python.Dict.{Dict, string_key}
use jsonpy_sql.Python.Value.{str_le}

abbrev pub Postings : Type 0
Postings = Dict String (List String)

-- No key stands twice.
abbrev pub IsDistinct : Postings → Type 0
IsDistinct [] = Unit
IsDistinct ((k, ids) ∷ p) = (D.get k p ≡ none) × IsDistinct p

abbrev pub in_range : String → String → String × List String → Bool
in_range low high e = str_le low e.0 && str_le e.0 high

pub record SortedDict (S : Type 0) : Type 0 where
  pub empty : S
  pub get : String → S → Option (List String)
  pub set : String → List String → S → S
  pub del : String → S → S
  -- `d.items()`
  pub items : S → Postings
  -- `d.irange(low, high)`, both ends included
  pub irange : String → String → S → List String
  -- `SortedDict(data)`
  pub of_dict : Postings → S
  pub get-empty : (k : String) → get k empty ≡ none
  pub get-set :
      (k j : String) (v : List String) (d : S)
      → get j (set k v d) ≡ (if str_eq k j then some v else get j d)
  pub get-del : (k j : String) (d : S) → get j (del k d) ≡ (if str_eq k j then none else get j d)
  pub get-items : (k : String) (d : S) → D.get k (items d) ≡ get k d
  pub items-IsDistinct : (d : S) → IsDistinct (items d)
  pub get-of_dict : (k : String) (p : Postings) → get k (of_dict p) ≡ D.get k p
  pub irange_lem :
      (low high : String) (d : S)
      → irange low high d ≡ map (λ e. e.0) (filter_by (in_range low high) (items d))
