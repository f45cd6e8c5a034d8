-- ===== src/Python/Result.antt =====
-- exceptions.py: the exceptions that the modelled code raises, without their messages, and the
-- result of a call that may raise.
use jsonpy_sql.Prelude.{◌≡◌, refl}

pub data Error : Type 0 where
  storage_error collection_exists_error wal_replay_error lock_timeout_error : Error
  validation_error unique_constraint_error referential_integrity_error type_error key_error : Error
  schema_error function_error attribute_error : Error

-- A call raises, or returns a value.
pub data Result {ℓ} (V : Type ℓ) : Type ℓ where
  err : Error → Result V
  ok : V → Result V

-- One value stands under `ok` only.
pub ok-injective {ℓ} : {V : Type ℓ} {v w : V} → ok v ≡ ok w → v ≡ w
ok-injective same = cc

module _ {ℓ κ} {V : Type ℓ} {W : Type κ} where
  -- The rest of a function runs on what a call returns; an exception passes through it.
  infixl 5 ◌>>=◌
  abbrev pub ◌>>=◌ : Result V → (V → Result W) → Result W
  err x >>= rest = err x
  ok v >>= rest = rest v

  -- If a function returns after a call, the call has returned.
  pub call_returned :
      (call : Result V) (rest : V → Result W) {w : W}
      → (call >>= rest) ≡ ok w
      → (v : V) × (call ≡ ok v) × (rest v ≡ ok w)
  call_returned (err x) rest returned = absurd (cc)
  call_returned (ok v) rest returned = (v, refl, returned)
