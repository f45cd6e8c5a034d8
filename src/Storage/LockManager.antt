-- ===== src/Storage/LockManager.antt =====
-- storage/lock_manager.py and utils/platform.py: the polling for a lock. The operating system is a
-- parameter: what the calls of `flock` do, one after the other, and what `time.monotonic` reads, in
-- whole ticks. The variant for Windows is not modelled.
pub mod Polling
pub mod Blocks
use jsonpy_sql.Prelude.{
  ℕ, zero, suc, ◌+◌, Bool, true, false, Option, none, some, List, [], ◌∷◌, if◌then◌else◌, leb,
}
use jsonpy_sql.Python.Result.{Result, ok, err, storage_error, lock_timeout_error}

-- The modes of `flock`, with `LOCK_NB`
pub data Mode : Type 0 where
  lock_sh lock_ex : Mode

-- Whether the call of `flock` with this number succeeds, and the reading of the clock after it.
pub record System : Type 0 where
  pub flock : Mode → ℕ → Bool
  pub monotonic : ℕ → ℕ

unfoldable pub try_lock_shared : System → ℕ → Bool
try_lock_shared os i = if os.flock lock_sh i then true else false

unfoldable pub try_lock_exclusive : System → ℕ → Bool
try_lock_exclusive os i = if os.flock lock_ex i then true else false

abbrev pub lock_fn : Bool → System → ℕ → Bool
lock_fn exclusive os i = if exclusive then try_lock_exclusive os i else try_lock_shared os i

-- The loop of `_acquire`, from the attempt with number `i`. None: the fuel has run out.
unfoldable pub poll : ℕ → Bool → System → ℕ → ℕ → Option (Result (Unit {0}))
poll zero exclusive os deadline i = none
poll (suc fuel) exclusive os deadline i =
    let rest = poll fuel exclusive os deadline (suc i) in
    if lock_fn exclusive os i
    then some (ok tt)
    else if leb deadline (os.monotonic i)
    then some (err lock_timeout_error)
    else rest

-- `_acquire`, from the reading `start` of the clock
unfoldable pub acquire : ℕ → Bool → System → ℕ → ℕ → Option (Result (Unit {0}))
acquire fuel exclusive os start timeout = poll fuel exclusive os (start + timeout) 0

-- What a `with` block does to its file.
pub data Event : Type 0 where
  opened acquired body released closed : Event

abbrev pub within : {A : Type 0} → Result (Unit {0}) → Result A → Result A × List Event
within (ok u) result = (result, opened ∷ acquired ∷ body ∷ released ∷ closed ∷ [])
within (err x) result = (err x, opened ∷ released ∷ closed ∷ [])

-- `self._open(path)`, `_acquire` and the block, over whether the file can be opened and the result of
-- the block. None: the fuel of `_acquire` has run out.
unfoldable pub hold :
    {A : Type 0} → Bool → ℕ → System → Bool → ℕ → ℕ → Result A → Option (Result A × List Event)
hold exclusive fuel os can_open start timeout result = elim can_open [
  | false ↦ some (err storage_error, [])
  | true ↦ elim (acquire fuel exclusive os start timeout) [
    | none ↦ none
    | some got ↦ some (within got result)
  ]
]

-- `with self.shared(path): ...`
abbrev pub shared :
    {A : Type 0} → ℕ → System → Bool → ℕ → ℕ → Result A → Option (Result A × List Event)
shared = hold false

-- `with self.exclusive(path): ...`
abbrev pub exclusive :
    {A : Type 0} → ℕ → System → Bool → ℕ → ℕ → Result A → Option (Result A × List Event)
exclusive = hold true
