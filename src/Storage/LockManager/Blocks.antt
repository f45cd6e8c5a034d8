-- ===== src/Storage/LockManager/Blocks.antt =====
-- What comes of a block under a lock.
use jsonpy_sql.Prelude.{
  ◌⊎◌, ◌≡◌, refl, ap, ℕ, suc, ◌+◌, ◌*◌, ◌≤◌, Bool, true, false, some, List, [], ◌∷◌, inl, inr,
}
use jsonpy_sql.Python.Result.{Result, err, lock_timeout_error}
use jsonpy_sql.Storage.LockManager.{
  System, lock_fn, Event, opened, acquired, body, released, closed, within, hold,
}
use jsonpy_sql.Storage.LockManager.Polling.{Waits, Decides, acquire-ends, acquire_lem}

-- What a block comes to, where attempt `m` ends the polling
abbrev pub IsHeld : {A : Type 0} → System → Bool → ℕ → ℕ → Result A → Result A × List Event → Type 0
IsHeld os exclusive deadline m result out =
    ((lock_fn exclusive os m ≡ true)
      × (out ≡ (result, opened ∷ acquired ∷ body ∷ released ∷ closed ∷ [])))
    ⊎ ((lock_fn exclusive os m ≡ false)
        × (deadline ≤ os.monotonic m)
        × (out ≡ (err lock_timeout_error, opened ∷ released ∷ closed ∷ [])))

within-IsHeld :
    {A : Type 0} (os : System) (exclusive : Bool) (deadline m : ℕ) (r : Result (Unit {0}))
    (result : Result A)
    → Decides os exclusive deadline m r
    → IsHeld os exclusive deadline m result (within r result)
within-IsHeld os exclusive deadline m r result (inl (got, is)) =
    inl (got, ap (λ x. within x result) is)
within-IsHeld os exclusive deadline m r result (inr (failed, late, is)) =
    inr (failed, late, ap (λ x. within x result) is)

-- Let at least `gap` ticks pass from each reading of the clock to the next, and let `n` gaps be as
-- long as the timeout. Then a `with` block under a lock, shared or exclusive, of a file that can be
-- opened comes to an end. It is decided by the first attempt that succeeds or after which the clock
-- has reached the deadline: if that attempt succeeds, the block is run, its result is that of the
-- whole, and the lock is released and the file closed after it; if not, `LockTimeoutError` is
-- raised, the block is not run, and the file is closed.
pub hold_lem :
    {A : Type 0} (os : System) (exclusive : Bool) (start timeout gap n : ℕ) (result : Result A)
    → start ≤ os.monotonic 0
    → ((i : ℕ) → os.monotonic i + gap ≤ os.monotonic (suc i))
    → timeout ≤ n * gap
    → (out : Result A × List Event) × (hold exclusive (suc n) os true start timeout result
        ≡ some out)
      × (m : ℕ) × Waits os exclusive (start + timeout) 0 m
      × IsHeld os exclusive (start + timeout) m result out
unfolding hold
hold_lem os exclusive start timeout gap n result first step enough =
    let (r, ends) = acquire-ends os exclusive start timeout gap n first step enough in
    let (m, lt, waits, decides) = acquire_lem (suc n) exclusive os start timeout r ends in
    (
      within r result,
      rw (hold, ends) refl,
      m,
      waits,
      within-IsHeld os exclusive (start + timeout) m r result decides,
    )
