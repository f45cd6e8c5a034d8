-- ===== src/Storage/LockManager/Polling.antt =====
-- When the polling for a lock ends, and how.
use jsonpy_sql.Prelude.{
  ◌⊎◌, ◌≡◌, refl, subst, ℕ, zero, suc, ◌+◌, ◌*◌, ◌≤◌, ◌<◌, Bool, true, false, Option, some, arith,
  if◌then◌else◌, leb, ltb, inl, inr, ◌&&◌, ◌||◌,
}
use jsonpy_sql.Python.Result.{Result, ok, err, lock_timeout_error}
use jsonpy_sql.Storage.LockManager.{System, lock_fn, poll, acquire}

-- What one round of the loop comes to.
round_ends :
    {A : Type 0} (b c : Bool) (x y : A) (rest : Option A)
    → (c ≡ true) ⊎ ((r : A) × (rest ≡ some r))
    → (r : A) × ((if b then some x else if c then some y else rest) ≡ some r)
round_ends true c x y rest h = (x, refl)
round_ends false true x y rest h = (y, refl)
round_ends false false x y rest (inl h) = absurd (cc)
round_ends false false x y rest (inr h) = h

-- The loop ends once the clock has passed the deadline.
poll_ends :
    (fuel k i : ℕ) (exclusive : Bool) (os : System) (deadline : ℕ)
    → k < fuel
    → deadline ≤ os.monotonic (k + i)
    → (r : Result (Unit {0})) × (poll fuel exclusive os deadline i ≡ some r)
unfolding poll
poll_ends zero k i exclusive os deadline lt late = absurd (omega arith)
poll_ends (suc fuel) zero i exclusive os deadline lt late =
    round_ends (lock_fn exclusive os i) (leb deadline (os.monotonic i)) _ _
      (poll fuel exclusive os deadline (suc i)) (inl (ground arith))
poll_ends (suc fuel) (suc k) i exclusive os deadline lt late =
    round_ends (lock_fn exclusive os i) (leb deadline (os.monotonic i)) _ _
      (poll fuel exclusive os deadline (suc i))
      (inr (
        poll_ends fuel k (suc i) exclusive os deadline (omega arith)
          (subst (λ n. deadline ≤ os.monotonic n) (omega arith) late)))

-- From the clock: `gap` ticks pass from one reading to the next.
reading :
    (os : System) (start gap i : ℕ)
    → start ≤ os.monotonic 0
    → ((i : ℕ) → os.monotonic i + gap ≤ os.monotonic (suc i))
    → start + i * gap ≤ os.monotonic i
reading os start gap zero first step = omega (arith, first)
reading os start gap (suc i) first step = omega (arith, step i, reading os start gap i first step)

-- If at least `gap` ticks pass from each reading of the clock to the next, `_acquire` returns or
-- raises within `n + 1` attempts, where `n` gaps are as long as the timeout.
pub acquire-ends :
    (os : System) (exclusive : Bool) (start timeout gap n : ℕ)
    → start ≤ os.monotonic 0
    → ((i : ℕ) → os.monotonic i + gap ≤ os.monotonic (suc i))
    → timeout ≤ n * gap
    → (r : Result (Unit {0})) × (acquire (suc n) exclusive os start timeout ≡ some r)
unfolding acquire
acquire-ends os exclusive start timeout gap n first step enough =
    let same : n ≡ n + 0 = omega arith in
    let late : start + timeout ≤ os.monotonic n =
      omega (arith, reading os start gap n first step) in
    poll_ends (suc n) n 0 exclusive os (start + timeout) (omega arith)
      (subst (λ m. start + timeout ≤ os.monotonic m) same late)

-- Attempt `n` ends the loop: it succeeds, or it fails and the clock has reached the deadline.
abbrev pub Decides : System → Bool → ℕ → ℕ → Result (Unit {0}) → Type 0
Decides os exclusive deadline n r =
    ((lock_fn exclusive os n ≡ true) × (r ≡ ok tt))
    ⊎ ((lock_fn exclusive os n ≡ false)
        × (deadline ≤ os.monotonic n)
        × (r ≡ err lock_timeout_error))

-- No attempt from `i` on and before `n` has ended the loop.
abbrev pub Waits : System → Bool → ℕ → ℕ → ℕ → Type 0
Waits os exclusive deadline i n =
    (j : ℕ)
    → ((leb i j && ltb j n) && (lock_fn exclusive os j || leb deadline (os.monotonic j))) ≡ false

round_decides :
    (b c : Bool) (rest : Option (Result (Unit {0}))) (r : Result (Unit {0}))
    → (if b then some (ok tt) else if c then some (err lock_timeout_error) else rest) ≡ some r
    → ((b ≡ true) × (r ≡ ok tt))
      ⊎ ((b ≡ false) × (c ≡ true) × (r ≡ err lock_timeout_error))
      ⊎ ((b ≡ false) × (c ≡ false) × (rest ≡ some r))
round_decides true c rest r h = inl (refl, cc)
round_decides false true rest r h = inr (inl (refl, refl, cc))
round_decides false false rest r h = inr (inr (refl, refl, h))

poll_lem :
    (fuel i : ℕ) (exclusive : Bool) (os : System) (deadline : ℕ) (r : Result (Unit {0}))
    → poll fuel exclusive os deadline i ≡ some r
    → (n : ℕ) × (i ≤ n)
      × (n < i + fuel)
      × Waits os exclusive deadline i n
      × Decides os exclusive deadline n r
unfolding poll
poll_lem zero i exclusive os deadline r h = absurd (cc)
poll_lem (suc fuel) i exclusive os deadline r h =
    elim (round_decides (lock_fn exclusive os i) (leb deadline (os.monotonic i))
      (poll fuel exclusive os deadline (suc i)) r h) [
        | inl (got, is) ↦ (i, omega arith, omega arith, λ j. ground arith, inl (got, is))
        | inr (inl (failed, late, is)) ↦
            (i, omega arith, omega arith, λ j. ground arith, inr (failed, ground arith, is))
        | inr (inr (failed, early, rest)) ↦
            let (n, le, lt, waits, decides) = poll_lem fuel (suc i) exclusive os deadline r rest in
            (
              n,
              omega arith,
              omega arith,
              λ j. ground (arith, waits j, λ (q : i ≡ j). idle j q failed early),
              decides,
            )
      ]
  where
    idle :
        (j : ℕ)
        → i ≡ j
        → lock_fn exclusive os i ≡ false
        → leb deadline (os.monotonic i) ≡ false
        → (lock_fn exclusive os j || leb deadline (os.monotonic j)) ≡ false
    idle j q failed early =
        subst (λ k. (lock_fn exclusive os k || leb deadline (os.monotonic k)) ≡ false) q
          (rw (failed, early) refl)

-- What `_acquire` comes to is decided by the first attempt that succeeds or after which the clock
-- has reached the deadline: it returns if that attempt succeeds, and raises `LockTimeoutError` if
-- it does not.
pub acquire_lem :
    (fuel : ℕ) (exclusive : Bool) (os : System) (start timeout : ℕ) (r : Result (Unit {0}))
    → acquire fuel exclusive os start timeout ≡ some r
    → (n : ℕ) × (n < fuel)
      × Waits os exclusive (start + timeout) 0 n
      × Decides os exclusive (start + timeout) n r
unfolding acquire
acquire_lem fuel exclusive os start timeout r h =
    let (n, _, lt, waits, decides) = poll_lem fuel 0 exclusive os (start + timeout) r h in
    (n, omega arith, waits, decides)

poll_granted :
    (n i : ℕ) (exclusive : Bool) (os : System) (deadline : ℕ)
    → lock_fn exclusive os (n + i) ≡ true
    → ((j : ℕ) → (ltb j (n + i) && leb deadline (os.monotonic j)) ≡ false)
    → poll (suc n) exclusive os deadline i ≡ some (ok tt)
unfolding poll
poll_granted zero i exclusive os deadline got early = ground arith
poll_granted (suc n) i exclusive os deadline got early =
    let shift : suc n + i ≡ n + suc i = omega arith in
    let later =
      poll_granted n (suc i) exclusive os deadline
        (subst (λ m. lock_fn exclusive os m ≡ true) shift got)
        (λ j. subst (λ m. (ltb j m && leb deadline (os.monotonic j)) ≡ false) shift (early j)) in
    ground (arith, early i, later)

-- If an attempt succeeds before the clock has reached the deadline after an earlier one, the lock is
-- acquired, by that attempt or an earlier one.
pub acquire-granted :
    (n : ℕ) (exclusive : Bool) (os : System) (start timeout : ℕ)
    → lock_fn exclusive os n ≡ true
    → ((j : ℕ) → (ltb j n && leb (start + timeout) (os.monotonic j)) ≡ false)
    → acquire (suc n) exclusive os start timeout ≡ some (ok tt)
unfolding acquire
acquire-granted n exclusive os start timeout got early =
    let same : n ≡ n + 0 = omega arith in
    poll_granted n 0 exclusive os (start + timeout)
      (subst (λ m. lock_fn exclusive os m ≡ true) same got)
      (λ j. subst (λ m. (ltb j m && leb (start + timeout) (os.monotonic j)) ≡ false) same (early j))
