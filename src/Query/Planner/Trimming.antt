-- ===== src/Query/Planner/Trimming.antt =====
-- The candidate that `_extract_lambda_source` returns.
use mathlib.Core.List.{append_assoc, append-nil}
use jsonpy_sql.Prelude.{
  ℕ, zero, suc, ◌≤◌, ◌≡◌, ◌⊎◌, refl, sym, ◌∙◌, ap, subst, true, some, [], ◌∷◌, ◌++◌, arith, eqb,
  length, take, drop, Bool-cases, inl, inr,
}
use jsonpy_sql.Query.Planner.Source.{
  Text, codes, Parsed, is_space, cons_unless_blank, rstrip, lstrip, from_word, is_lambda, trim,
  trim_all, extract_lambda_source,
}

length-cons_unless_blank :
    (c : ℕ) (s t : Text)
    → length s ≤ length t
    → length (cons_unless_blank c s) ≤ length (cons_unless_blank c t)
length-cons_unless_blank c [] [] h = omega arith
length-cons_unless_blank c [] (d ∷ t) h = ground arith
length-cons_unless_blank c (d ∷ s) [] h = absurd (omega (arith, h))
length-cons_unless_blank c (d ∷ s) (f ∷ t) h = omega (arith, h)

rstrip-take_mono :
    (s : Text) (a b : ℕ) → a ≤ b → length (rstrip (take a s)) ≤ length (rstrip (take b s))
unfolding rstrip
rstrip-take_mono s zero b h = omega arith
rstrip-take_mono s (suc a) zero h = absurd (omega (arith, h))
rstrip-take_mono [] (suc a) (suc b) h = omega arith
rstrip-take_mono (c ∷ s) (suc a) (suc b) h =
    length-cons_unless_blank c (rstrip (take a s)) (rstrip (take b s))
      (rstrip-take_mono s a b (omega (arith, h)))

-- What `rstrip` removes stands at the end.
cons_prefix : (c : ℕ) (s : Text) → (b : Text) × (cons_unless_blank c s ++ b ≡ c ∷ s)
cons_prefix c [] = elim (Bool-cases (is_space c)) [
  | inl h ↦ (c ∷ [], rw h refl)
  | inr h ↦ ([], rw h refl)
]
cons_prefix c (d ∷ s) = ([], append-nil (c ∷ d ∷ s))

rstrip_prefix : (s : Text) → (b : Text) × (rstrip s ++ b ≡ s)
unfolding rstrip
rstrip_prefix [] = ([], refl)
rstrip_prefix (c ∷ s) =
    let (b, h) = rstrip_prefix s in
    let (b', h') = cons_prefix c (rstrip s) in
    (
      b' ++ b,
      sym (append_assoc (cons_unless_blank c (rstrip s)) b' b)
          ∙ ap (λ l. l ++ b) h'
          ∙ ap (λ l. c ∷ l) h,
    )

take-append-drop : (n : ℕ) (s : Text) → take n s ++ drop n s ≡ s
take-append-drop zero s = refl
take-append-drop (suc n) [] = refl
take-append-drop (suc n) (c ∷ s) = ap (λ l. c ∷ l) (take-append-drop n s)

candidate_prefix : (n : ℕ) (s : Text) → (b : Text) × (s ≡ rstrip (take n s) ++ b)
candidate_prefix n s =
    let (b, h) = rstrip_prefix (take n s) in
    (
      b ++ drop n s,
      sym (take-append-drop n s)
          ∙ ap (λ l. l ++ drop n s) (sym h)
          ∙ append_assoc (rstrip (take n s)) b (drop n s),
    )

last_or_below : (m n : ℕ) → suc m ≤ suc n → (suc m ≤ n) ⊎ (m ≡ n)
last_or_below m n h = elim (Bool-cases (eqb m n)) [
  | inl e ↦ inr (ground arith)
  | inr e ↦ inl (ground arith)
]

module _ (parse : Text → Parsed) where
  -- The text is a lambda, starts `src`, and is no shorter than the candidate of this length.
  abbrev pub IsLongest : Text → ℕ → Text → Type 0
  IsLongest src m c =
      (is_lambda parse c ≡ true)
      × ((b : Text) × (src ≡ c ++ b))
      × (length (rstrip (take m src)) ≤ length c)

  trim-IsLongest :
      (src : Text) (m n : ℕ)
      → suc m ≤ n
      → is_lambda parse (rstrip (take (suc m) src)) ≡ true
      → (c : Text) × (trim parse src n ≡ some c) × IsLongest src (suc m) c
  unfolding trim
  trim-IsLongest src m zero h p = absurd (omega (arith, h))
  trim-IsLongest src m (suc n) h p =
      elim (Bool-cases (is_lambda parse (rstrip (take (suc n) src)))) [
        | inl q ↦ (
          rstrip (take (suc n) src),
          rw q refl,
          (q, candidate_prefix (suc n) src, rstrip-take_mono src (suc m) (suc n) h),
        )
        | inr q ↦ elim (last_or_below m n h) [
          | inl below ↦
              let (c, found, longest) = trim-IsLongest src m n below p in
              (c, rw (q, found) refl, longest)
          | inr last ↦
              let same = subst (λ k. is_lambda parse (rstrip (take (suc k) src)) ≡ true) last p in
              absurd (cc)
        ]
      ]

  -- Let `src` be the text of a callable from the first "lambda" on. If a prefix of it that is not
  -- empty parses as a lambda, blanks at its end aside, then the extraction returns a prefix of it
  -- that parses as a lambda, and no such prefix is longer.
  pub extract_lambda_source-IsLongest :
      (text src : Text) (m : ℕ)
      → from_word (codes "lambda") (lstrip (rstrip text)) ≡ some src
      → suc m ≤ length src
      → is_lambda parse (rstrip (take (suc m) src)) ≡ true
      → (c : Text) × (extract_lambda_source parse (some text) ≡ some c) × IsLongest src (suc m) c
  unfolding extract_lambda_source
  extract_lambda_source-IsLongest text src m from h p =
      let (c, found, longest) = trim-IsLongest src m (length src) h p in
      (c, ap (trim_all parse) from ∙ found, longest)
