-- ===== src/Python/Dict.antt =====
-- Python's `dict`: entries in the order in which their keys first came in. Keys are compared by an
-- equality that may identify distinct values, as Python's `True == 1` does.
use jsonpy_sql.Prelude.{
  ◌≡◌, refl, sym, ◌∙◌, Bool, true, false, String, Option, none, some, List, [], ◌∷◌, arith, eq_iff,
  if◌then◌else◌, ◌&&◌, Bool-cases, inl, inr,
}
use text.Mathlib.Text.{◌==◌ as str_eq}
use text.Mathlib.TextPositions.{eq_refl}

-- `==` on keys: what it identifies it cannot tell apart.
pub record Key {ℓ} (K : Type ℓ) : Type ℓ where
  pub beq : K → K → Bool
  pub beq_refl : (a : K) → beq a a ≡ true
  pub beq_cong : (a b c : K) → beq a b ≡ true → beq a c ≡ beq b c

infix 50 ◌==◌
abbrev pub ◌==◌ {ℓ} : {K : Type ℓ} ⦃k : Key K⦄ → K → K → Bool
◌==◌ ⦃k⦄ = k.beq

pub str_cong : (a b c : String) → str_eq a b ≡ true → str_eq a c ≡ str_eq b c
str_cong a b c h = ground (arith, eq_iff a b)

instance abbrev pub string_key : Key String
string_key = record { beq = str_eq; beq_refl = eq_refl; beq_cong = str_cong }

abbrev pub pair_eq : String × String → String × String → Bool
pair_eq a b = str_eq a.0 b.0 && str_eq a.1 b.1

pub pair_eq_refl : (a : String × String) → pair_eq a a ≡ true
pair_eq_refl a = ground (arith, eq_iff a.0 a.0, eq_iff a.1 a.1)

pub pair_eq_cong : (a b c : String × String) → pair_eq a b ≡ true → pair_eq a c ≡ pair_eq b c
pair_eq_cong a b c h = ground (arith, str_cong a.0 b.0 c.0, str_cong a.1 b.1 c.1)

-- Tuples of two texts.
instance abbrev pub pair_key : Key (String × String)
pair_key = record { beq = pair_eq; beq_refl = pair_eq_refl; beq_cong = pair_eq_cong }

abbrev pub Dict {ℓ κ} : Type ℓ → Type κ → Type (ℓ ⊔ κ)
Dict K V = List (K × V)

module _ {ℓ} {K : Type ℓ} ⦃e : Key K⦄ where
  pub beq_symm : (a b : K) → (a == b) ≡ true → (b == a) ≡ true
  beq_symm a b h = sym (e.beq_cong a b a h) ∙ e.beq_refl a

  pub beq_cong_right : (a b c : K) → (a == b) ≡ true → (c == a) ≡ (c == b)
  beq_cong_right a b c h = ground (arith, e.beq_cong c a b, e.beq_cong c b a, beq_symm a b h)

module _ {ℓ κ} {K : Type ℓ} {V : Type κ} ⦃e : Key K⦄ where
  -- `d.get(k)`
  unfoldable pub get : K → Dict K V → Option V
  get k [] = none
  get k ((j, v) ∷ d) = if j == k then some v else get k d

  -- `d[k] = v` keeps the place, and the first spelling, of a key that is there.
  unfoldable pub set : K → V → Dict K V → Dict K V
  set k v [] = (k, v) ∷ []
  set k v ((j, w) ∷ d) = if j == k then (j, v) ∷ d else (j, w) ∷ set k v d

  -- `del d[k]`, `d.pop(k, None)`
  unfoldable pub del : K → Dict K V → Dict K V
  del k [] = []
  del k ((j, w) ∷ d) = if j == k then del k d else (j, w) ∷ del k d

  -- `k in d`
  abbrev pub contains : K → Dict K V → Bool
  contains k d = elim (get k d) [ none ↦ false | some _ ↦ true ]

  pub get-set :
      (k j : K) (v : V) (d : Dict K V) → get j (set k v d) ≡ (if k == j then some v else get j d)
  unfolding get set
  get-set k j v [] = refl
  get-set k j v ((i, w) ∷ d) =
      ground (arith, e.beq_cong i k j, beq_cong_right k j i, get-set k j v d)

  pub get-del : (k j : K) (d : Dict K V) → get j (del k d) ≡ (if k == j then none else get j d)
  unfolding get del
  get-del k j [] = ground arith
  get-del k j ((i, w) ∷ d) = ground (arith, e.beq_cong i k j, beq_cong_right k j i, get-del k j d)

  -- Equal keys find the same value.
  pub get-cong : (a b : K) (d : Dict K V) → (a == b) ≡ true → get a d ≡ get b d
  unfolding get
  get-cong a b [] h = refl
  get-cong a b ((i, w) ∷ d) h = ground (arith, beq_cong_right a b i h, get-cong a b d h)

pub ruleset dict_laws = (get-set, get-del)

module _ {ℓ κ} {K : Type ℓ} {V : Type κ} ⦃e : Key K⦄ where
  pub del-set : (k : K) (v : V) (d : Dict K V) → del k (set k v d) ≡ del k d
  unfolding set del
  del-set k v [] = ground (arith, e.beq_refl k)
  del-set k v ((i, w) ∷ d) = ground (arith, del-set k v d)

  -- No key comes twice.
  abbrev pub IsDict : Dict K V → Type κ
  IsDict [] = Unit
  IsDict ((k, v) ∷ d) = (get k d ≡ none) × IsDict d

  pub set-IsDict : (k : K) (v : V) (d : Dict K V) → IsDict d → IsDict (set k v d)
  unfolding get set
  set-IsDict k v [] h = (refl, tt)
  set-IsDict k v ((j, w) ∷ d) h = elim (Bool-cases (j == k)) [
    | inl t ↦ rw (t) h
    | inr t ↦
        let other : (k == j) ≡ false = ground (arith, beq_symm k j) in
        rw (t) (get-set k j v d ∙ rw (other) h.0, set-IsDict k v d h.1)
  ]
