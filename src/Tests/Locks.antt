-- ===== src/Tests/Locks.antt =====
-- The theorems on polling for a lock, where the third attempt succeeds.
use jsonpy_sql.Prelude.{◌≡◌, refl, ℕ, suc, ◌+◌, ◌*◌, ◌≤◌, true, some, List, [], ◌∷◌, leb, arith}
use jsonpy_sql.Python.Result.{Result, ok, err, lock_timeout_error}
use jsonpy_sql.Storage.LockManager.{
  System, try_lock_exclusive, poll, acquire, hold, exclusive, Event, opened, acquired, body,
  released, closed,
}
use jsonpy_sql.Storage.LockManager.Blocks.{IsHeld, hold_lem}
use jsonpy_sql.Storage.LockManager.Polling.{Waits, acquire-ends}

abbrev third_time : System
third_time = record { flock = λ mode i. leb 2 i; monotonic = λ i. 100 + i * 5 }

first_reading : 100 ≤ third_time.monotonic 0
first_reading = omega arith

gaps : (i : ℕ) → third_time.monotonic i + 5 ≤ third_time.monotonic (suc i)
gaps i = omega arith

four_gaps : 20 ≤ 4 * 5
four_gaps = omega arith

acquire-ends_example : (r : Result (Unit {0})) × (acquire 5 true third_time 100 20 ≡ some r)
acquire-ends_example = acquire-ends third_time true 100 20 5 4 first_reading gaps four_gaps

hold_lem_example :
    (out : Result ℕ × List Event) × (hold true 5 third_time true 100 20 (ok 7) ≡ some out)
    × (m : ℕ) × Waits third_time true (100 + 20) 0 m
    × IsHeld third_time true (100 + 20) m (ok 7) out
hold_lem_example = hold_lem third_time true 100 20 5 4 (ok 7) first_reading gaps four_gaps

run_under_lock :
    exclusive {A = ℕ} 5 third_time true 100 20 (ok 7)
    ≡ some (ok 7, opened ∷ acquired ∷ body ∷ released ∷ closed ∷ [])
unfolding hold acquire poll try_lock_exclusive
run_under_lock = refl

not_granted_in_time :
    exclusive {A = ℕ} 5 third_time true 100 5 (ok 7)
    ≡ some (err lock_timeout_error, opened ∷ released ∷ closed ∷ [])
unfolding hold acquire poll try_lock_exclusive
not_granted_in_time = refl
