-- ===== src/Query/Planner/Source.antt =====
-- `_extract_lambda_source` of query/planner.py, on texts as lists of code points. `inspect` and `ast`
-- are given by the text that `inspect.getsource` returns, or nothing where it raises OSError or
-- TypeError, and by what `ast.parse` makes of a text.
use Prim.Native.Char.{code}
use jsonpy_sql.Prelude.{
  ℕ, zero, suc, String, Bool, true, false, Option, none, some, List, [], ◌∷◌, if◌then◌else◌, ◌&&◌,
  ◌||◌, eqb, leb, length, take,
}
use jsonpy_sql.Query.Planner.{Lambda}

abbrev pub Text : Type 0
Text = List ℕ

abbrev pub codes : String → Text
codes String.[] = []
codes (String.◌∷◌ c s) = code c ∷ codes s

-- `ast.parse(candidate, mode="eval")`: a SyntaxError, or an expression whose body is a lambda or not
pub data Parsed : Type 0 where
  syntax_error : Parsed
  lambda : Lambda → Parsed
  other_body : Parsed

-- The white space that `str.strip` removes
unfoldable pub is_space : ℕ → Bool
is_space c =
    leb 9 c && leb c 13
    || leb 28 c && leb c 32
    || eqb c 133
    || eqb c 160
    || eqb c 5760
    || leb 8192 c && leb c 8202
    || eqb c 8232
    || eqb c 8233
    || eqb c 8239
    || eqb c 8287
    || eqb c 12288

-- `text.lstrip()`
unfoldable pub lstrip : Text → Text
lstrip [] = []
lstrip (c ∷ s) = if is_space c then lstrip s else c ∷ s

abbrev pub cons_unless_blank : ℕ → Text → Text
cons_unless_blank c [] = if is_space c then [] else c ∷ []
cons_unless_blank c (d ∷ s) = c ∷ d ∷ s

-- `text.rstrip()`
unfoldable pub rstrip : Text → Text
rstrip [] = []
rstrip (c ∷ s) = cons_unless_blank c (rstrip s)

-- `text.startswith(word)`
unfoldable pub starts_with : Text → Text → Bool
starts_with s [] = true
starts_with [] (w ∷ ws) = false
starts_with (c ∷ s) (w ∷ ws) = eqb c w && starts_with s ws

-- `text[text.find(word):]`, or nothing where the word is not found
unfoldable pub from_word : Text → Text → Option Text
from_word word [] = if starts_with [] word then some [] else none
from_word word (c ∷ s) = if starts_with (c ∷ s) word then some (c ∷ s) else from_word word s

module _ (parse : Text → Parsed) where
  -- Whether the text parses as a lambda
  abbrev pub is_lambda : Text → Bool
  is_lambda s = elim (parse s) [ lambda l ↦ true | _ ↦ false ]

  -- The loop over the prefixes of `src`, from one of this length down
  unfoldable pub trim : Text → ℕ → Option Text
  trim src zero = none
  trim src (suc n) =
      let rest = trim src n in
      let candidate = rstrip (take (suc n) src) in
      if is_lambda candidate then some candidate else rest

  abbrev pub trim_all : Option Text → Option Text
  trim_all none = none
  trim_all (some src) = trim src (length src)

  -- `_extract_lambda_source`
  unfoldable pub extract_lambda_source : Option Text → Option Text
  extract_lambda_source none = none
  extract_lambda_source (some text) = trim_all (from_word (codes "lambda") (lstrip (rstrip text)))

  -- The lambda of the candidate
  unfoldable pub source_of : Option Text → Option Lambda
  source_of text = elim (extract_lambda_source text) [
    | none ↦ none
    | some src ↦ elim (parse src) [ lambda l ↦ some l | _ ↦ none ]
  ]
