-- ===== src/Tests/Sources.antt =====
-- The source line of a query.
use jsonpy_sql.Prelude.{◌≡◌, refl, true, some, [], ◌∷◌, arith, if◌then◌else◌, eqb, length, take}
use jsonpy_sql.Query.Planner.{name}
use jsonpy_sql.Query.Planner.Source.{
  Text, codes, Parsed, syntax_error, lambda, is_space, rstrip, lstrip, starts_with, from_word,
  is_lambda, extract_lambda_source,
}
use jsonpy_sql.Query.Planner.Trimming.{IsLongest, extract_lambda_source-IsLongest}

-- A parser that takes texts with eleven characters for `lambda x: x`
abbrev parse : Text → Parsed
parse s =
    if eqb (length s) 11 then lambda (record { args = "x" ∷ []; body = name "x" }) else syntax_error

abbrev line : Text
line = codes "  q.where(lambda x: x)"

abbrev src : Text
src = codes "lambda x: x)"

found : from_word (codes "lambda") (lstrip (rstrip line)) ≡ some src
unfolding from_word lstrip rstrip starts_with is_space
found = refl

parsed : is_lambda parse (rstrip (take 11 src)) ≡ true
unfolding rstrip is_space
parsed = refl

extract_lambda_source-IsLongest_example :
    (c : Text) × (extract_lambda_source parse (some line) ≡ some c) × IsLongest parse src 11 c
extract_lambda_source-IsLongest_example =
    extract_lambda_source-IsLongest parse line src 10 found (omega arith) parsed
