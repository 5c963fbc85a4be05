-- ===== src/Action.antt =====
-- Member functions that return an `ErrorCode`, fill out parameters and change shared state. What was
-- written before an error stays written, so the state comes back beside every outcome.
use metadata_manager.Prelude.{Bool, if◌then◌else◌}
use metadata_manager.ErrorCode.{ErrorCode}
use metadata_manager.Outcome.{Outcome, ok, err, thrown, undefined}

abbrev pub Action : Type 0 → Type 0 → Type 0
Action S A = S → Outcome A × S

module _ {S A : Type 0} where
  abbrev pub pure : A → Action S A
  pure a s = (ok a, s)

  abbrev pub fail : ErrorCode → Action S A
  fail e s = (err e, s)

  abbrev pub lift : Outcome A → Action S A
  lift r s = (r, s)

  abbrev pub gets : (S → A) → Action S A
  gets f s = (ok (f s), s)

abbrev pub modify : {S : Type 0} → (S → S) → Action S (Unit {0})
modify f s = (ok tt, f s)

module _ {S A B : Type 0} where
  abbrev pub continue : Outcome A → (A → Action S B) → Action S B
  continue (ok a) f s = f a s
  continue (err e) f s = (err e, s)
  continue thrown f s = (thrown, s)
  continue undefined f s = (undefined, s)

  infixl 10 ◌>>=◌ ◌>>◌
  unfoldable pub ◌>>=◌ : Action S A → (A → Action S B) → Action S B
  ◌>>=◌ m f s = let (r, s') = m s in continue r f s'

  abbrev pub ◌>>◌ : Action S A → Action S B → Action S B
  m >> n = m >>= λ _. n

-- `if (error is not-found) error = OK`: the handler decides on the code.
abbrev pub recover : {S A : Type 0} → (ErrorCode → Bool) → A → Action S A → Action S A
recover test a m s =
    let (r, s') = m s in
    elim r [
      | ok b ↦ (ok b, s')
      | err e ↦ (if test e then ok a else err e, s')
      | thrown ↦ (thrown, s')
      | undefined ↦ (undefined, s')
    ]
