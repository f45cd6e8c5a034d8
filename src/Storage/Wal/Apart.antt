-- ===== src/Storage/Wal/Apart.antt =====
-- The entries that `read_entries` keeps are for different documents.
use jsonpy_sql.Prelude.{
  ◌≡◌, sym, ◌∙◌, String, true, false, none, some, List, [], ◌∷◌, arith, All, Bool-cases, inl, inr,
  if◌then◌else◌,
}
use jsonpy_sql.Python.Dict as D
use jsonpy_sql.Python.Dict.{pair_key, pair_eq, pair_eq_refl, pair_eq_cong, beq_symm}
use jsonpy_sql.Storage.Wal.{WalEntry, EntryMap, entry_key, values}
use jsonpy_sql.Storage.Wal.Dedup.{dedup, IsKeyed, IsKeyed-dedup}

-- No two entries are for one document.
abbrev pub IsApart : List WalEntry → Type 0
IsApart [] = Unit
IsApart (x ∷ es) = All (λ y. pair_eq (entry_key x) (entry_key y) ≡ false) es × IsApart es

apart_from :
    (k : String × String) (x : WalEntry) (m : EntryMap)
    → pair_eq k (entry_key x) ≡ true
    → D.get k m ≡ none
    → IsKeyed m
    → All (λ y. pair_eq (entry_key x) (entry_key y) ≡ false) (values m)
unfolding D.get
apart_from k x [] h g keyed = tt
apart_from k x ((j, y) ∷ m) h g (own, new, keyed) = elim (Bool-cases (pair_eq j k)) [
  | inl q ↦ absurd (found q g)
  | inr q ↦ (differ q, apart_from k x m h (later q g) keyed)
]
  where
    found : pair_eq j k ≡ true → (if pair_eq j k then some y else D.get k m) ≡ none → ⊥
    found q r = ground arith

    later :
        pair_eq j k ≡ false → (if pair_eq j k then some y else D.get k m) ≡ none → D.get k m ≡ none
    later q r = ground arith

    differ : pair_eq j k ≡ false → pair_eq (entry_key x) (entry_key y) ≡ false
    differ q =
        let left = pair_eq_cong k (entry_key x) (entry_key y) h in
        let right = pair_eq_cong j (entry_key y) k own in
        elim (Bool-cases (pair_eq k (entry_key y))) [
          | inr p ↦ sym left ∙ p
          | inl p ↦ let back = beq_symm k (entry_key y) p in absurd (cc)
        ]

IsKeyed-IsApart : (m : EntryMap) → IsKeyed m → IsApart (values m)
IsKeyed-IsApart [] h = tt
IsKeyed-IsApart ((k, x) ∷ m) (own, new, keyed) =
    (apart_from k x m own new keyed, IsKeyed-IsApart m keyed)

pub dedup-IsApart : (es : List WalEntry) → IsApart (values (dedup [] es))
dedup-IsApart es = IsKeyed-IsApart (dedup [] es) (IsKeyed-dedup [] es tt)
