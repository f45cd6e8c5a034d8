-- ===== src/Query/Executor/Slicing.antt =====
-- `_slice` against taking and dropping rows.
use jsonpy_sql.Prelude.{ℕ, zero, suc, ◌+◌, ◌≡◌, refl, ap, ◌∙◌, Option, none, some, arith}
use jsonpy_sql.Query.Rows.{Rows, stop, raise, row}
use jsonpy_sql.Query.Executor.{slice, slice_from}

-- The rows after the first `n`
abbrev pub drop_rows : ℕ → Rows → Rows
drop_rows zero xs = xs
drop_rows (suc n) stop = stop
drop_rows (suc n) (raise x) = raise x
drop_rows (suc n) (row d xs) = drop_rows n xs

-- The first `n` rows
abbrev pub take_rows : ℕ → Rows → Rows
take_rows zero xs = stop
take_rows (suc n) stop = stop
take_rows (suc n) (raise x) = raise x
take_rows (suc n) (row d xs) = row d (take_rows n xs)

-- Once the skipping is over
yield_none : (s c : ℕ) (xs : Rows) → slice_from s none s c xs ≡ xs
unfolding slice_from
yield_none s c stop = refl
yield_none s c (raise x) = refl
yield_none s c (row d xs) = ground (arith, yield_none s (suc c) xs)

yield_some :
    (s n c m : ℕ) (xs : Rows) → m ≡ c + suc n → slice_from s (some m) s c xs ≡ take_rows (suc n) xs
unfolding slice_from
yield_some s n c m stop h = refl
yield_some s n c m (raise x) h = refl
yield_some s zero c m (row d xs) h = ground arith
yield_some s (suc n) c m (row d xs) h =
    ground (arith, yield_some s n (suc c) m xs (omega (arith, h)))

-- The skipping itself
skipping :
    (k j s : ℕ) (l : Option ℕ) (xs : Rows)
    → s ≡ j + k
    → slice_from s l j 0 xs ≡ slice_from s l s 0 (drop_rows k xs)
unfolding slice_from
skipping zero j s l xs h = ap (λ i. slice_from s l i 0 xs) (omega (arith, h))
skipping (suc k) j s l stop h = refl
skipping (suc k) j s l (raise x) h = refl
skipping (suc k) j s l (row d xs) h = ground (arith, skipping k (suc j) s l xs (omega (arith, h)))

-- The rows that a slice with this limit yields at most: one at least, also for a limit of 0.
abbrev pub limited : Option ℕ → Rows → Rows
limited none xs = xs
limited (some zero) xs = take_rows 1 xs
limited (some (suc n)) xs = take_rows (suc n) xs

yield_zero : (s : ℕ) (xs : Rows) → slice_from s (some 0) s 0 xs ≡ take_rows 1 xs
unfolding slice_from
yield_zero s stop = refl
yield_zero s (raise x) = refl
yield_zero s (row d xs) = ground arith

yield_limited :
    (s : ℕ) (limit : Option ℕ) (xs : Rows) → slice_from s limit s 0 xs ≡ limited limit xs
yield_limited s none xs = yield_none s 0 xs
yield_limited s (some zero) xs = yield_zero s xs
yield_limited s (some (suc n)) xs = yield_some s n 0 (suc n) xs (omega arith)

-- A slice skips the first `skip` rows and yields as many of the others as the limit says, where a
-- limit of 0 counts as 1.
pub slice_lem :
    (skip : ℕ) (limit : Option ℕ) (xs : Rows)
    → slice skip limit xs ≡ limited limit (drop_rows skip xs)
unfolding slice
slice_lem skip limit xs =
    skipping skip 0 skip limit xs (omega arith) ∙ yield_limited skip limit (drop_rows skip xs)
