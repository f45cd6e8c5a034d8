-- ===== src/Storage/IndexManager/Keys.antt =====
-- The keys of an index: `_encode_key`, `_decode_key`, `_make_key`.
use Prim.Native.Char.{Char, char, code}
use Prim.Native.String.{◌++◌ as str_append}
use text.Mathlib.TextEquality.{Char-path}
use text.Mathlib.TextLemmas.{cons-append, nil-append}
use jsonpy_sql.Prelude.{
  ◌≡◌, refl, ap, ◌∙◌, String, Bool, true, false, List, [], ◌∷◌, map, arith, eqb, if◌then◌else◌,
  Bool-cases, inl, inr,
}
use jsonpy_sql.Python.Value.{Value, str, to_str, Document, field}

-- `IndexSpec` of storage/models.py
pub record IndexSpec : Type 0 where
  pub fields : List String
  pub unique : Bool

-- A single-field key, or the tuple of a compound index.
pub data IndexKey : Type 0 where
  scalar : Value → IndexKey
  tuple : List Value → IndexKey

abbrev sep : Char
sep = char 31 tt

-- `_COMPOUND_SEP`, the character 0x1f
abbrev pub compound_sep : String
compound_sep = String.◌∷◌ sep String.[]

-- `sep.join(parts)`
unfoldable pub join : List String → String
join [] = String.[]
join (s ∷ []) = s
join (s ∷ t ∷ parts) = str_append s (String.◌∷◌ sep (join (t ∷ parts)))

abbrev push : Char → List String → List String
push c [] = String.◌∷◌ c String.[] ∷ []
push c (s ∷ parts) = String.◌∷◌ c s ∷ parts

-- `raw.split(sep)`
unfoldable pub split : String → List String
split String.[] = String.[] ∷ []
split (String.◌∷◌ c raw) =
    let parts = split raw in if eqb (code c) 31 then String.[] ∷ parts else push c parts

-- `_encode_key`
unfoldable pub encode_key : IndexKey → String
encode_key (scalar v) = to_str v
encode_key (tuple vs) = join (map to_str vs)

-- `_decode_key`
unfoldable pub decode_key : String → Bool → IndexKey
decode_key raw true = tuple (map str (split raw))
decode_key raw false = scalar (str raw)

abbrev pub key_from : List String → Document → IndexKey
key_from (f ∷ []) document = scalar (field f document)
key_from fs document = tuple (map (λ f. field f document) fs)

-- `_make_key`
unfoldable pub make_key : IndexSpec → Document → IndexKey
make_key spec document = key_from spec.fields document

-- The key text under which an index files a document.
abbrev pub key_of : IndexSpec → Document → String
key_of spec document = encode_key (make_key spec document)

map-to_str : (ss : List String) → map to_str (map str ss) ≡ ss
unfolding to_str
map-to_str [] = refl
map-to_str (s ∷ ss) = ap (λ l. s ∷ l) (map-to_str ss)

join-push :
    (c : Char) (s : String) (parts : List String)
    → join (push c (s ∷ parts)) ≡ String.◌∷◌ c (join (s ∷ parts))
unfolding join
join-push c s [] = refl
join-push c s (t ∷ parts) = cons-append c s (String.◌∷◌ sep (join (t ∷ parts)))

split-cons : (raw : String) → (s : String) × (parts : List String) × (split raw ≡ s ∷ parts)
unfolding split
split-cons String.[] = (String.[], [], refl)
split-cons (String.◌∷◌ c raw) = elim (Bool-cases (eqb (code c) 31)) [
  | inl e ↦ (String.[], split raw, rw e)
  | inr e ↦ let (s, parts, q) = split-cons raw in (String.◌∷◌ c s, parts, rw (e, q))
]

join-split : (raw : String) → join (split raw) ≡ raw
unfolding join split
join-split String.[] = refl
join-split (String.◌∷◌ c raw) =
    let (s, parts, q) = split-cons raw in
    let ih : join (s ∷ parts) ≡ raw = rw (← q) (join-split raw) in
    elim (Bool-cases (eqb (code c) 31)) [
      | inl e ↦
          let same : sep ≡ c = Char-path sep c (ground arith) in
          rw (e, q) (cc (nil-append (String.◌∷◌ sep (join (s ∷ parts)))))
      | inr e ↦ rw (e, q) (join-push c s parts ∙ ap (λ t. String.◌∷◌ c t) ih)
    ]

-- Reading back a stored key text and encoding it again gives the same text, for single-field and for
-- compound indexes.
pub encode_key-decode_key :
    (raw : String) (is_compound : Bool) → encode_key (decode_key raw is_compound) ≡ raw
unfolding encode_key decode_key to_str
encode_key-decode_key raw true = rw (map-to_str (split raw)) (join-split raw)
encode_key-decode_key raw false = refl
