-- ===== src/Query/Rows.antt =====
-- Python's generators of documents, as the documents they yield and how they end. A consumer that
-- stops early does not meet an exception that comes later.
use jsonpy_sql.Prelude.{Bool, true, false, List, [], ◌∷◌}
use jsonpy_sql.Python.Value.{Document}
use jsonpy_sql.Python.Result.{Error, Result, ok, err, ◌>>=◌}

pub data Rows : Type 0 where
  stop : Rows
  raise : Error → Rows
  row : Document → Rows → Rows

abbrev pub of_list : List Document → Rows
of_list [] = stop
of_list (d ∷ ds) = row d (of_list ds)

abbrev pub of_result : Result (List Document) → Rows
of_result (ok ds) = of_list ds
of_result (err x) = raise x

-- `yield from a; yield from b`
unfoldable pub append : Rows → Rows → Rows
append stop ys = ys
append (raise x) ys = raise x
append (row d xs) ys = row d (append xs ys)

-- `list(rows)`
unfoldable pub to_list : Rows → Result (List Document)
to_list stop = ok []
to_list (raise x) = err x
to_list (row d xs) = do ds ← to_list xs; ok (d ∷ ds)

-- A row if a test holds, and the rows after it, unless the test raises.
abbrev pub row_if : Result Bool → Document → Rows → Rows
row_if (ok true) d rest = row d rest
row_if (ok false) d rest = rest
row_if (err x) d rest = raise x
