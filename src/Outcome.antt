-- ===== src/Outcome.antt =====
-- What a function returns: its `ErrorCode`, with the out parameters beside success.
use metadata_manager.ErrorCode.{ErrorCode}

-- `thrown`: an exception leaves the function. `undefined`: the C++ behaviour is undefined.
pub data Outcome {ℓ} (A : Type ℓ) : Type ℓ where
  ok : A → Outcome A
  err : ErrorCode → Outcome A
  thrown : Outcome A
  undefined : Outcome A

infixl 10 ◌>>=◌
abbrev pub ◌>>=◌ {ℓ κ} : {A : Type ℓ} {B : Type κ} → Outcome A → (A → Outcome B) → Outcome B
ok a >>= f = f a
err e >>= f = err e
thrown >>= f = thrown
undefined >>= f = undefined
