-- ===== src/Keeping.antt =====
-- Actions that keep a predicate of the state, by the structure of the action: what holds before holds after,
-- whatever is returned.
use metadata_manager.Prelude.{Bool, true, false, Option, none, some, if◌then◌else◌}
use metadata_manager.ErrorCode.{ErrorCode}
use metadata_manager.Outcome
use metadata_manager.Outcome.{Outcome, ok, err, thrown, undefined}
use metadata_manager.Action.{Action, lift, continue, pure, recover, ◌>>=◌}

pub record Keeps {S A : Type 0} (Inv : S → Type 0) (m : Action S A) : Type 0 where
  pub keeps : (w : S) → Inv w → Inv (m w).1

-- what a result satisfies, where there is one
abbrev pub OnOk : {A : Type 0} → (A → Type 0) → Outcome A → Type 0
OnOk P (ok a) = P a
OnOk P (err _) = Unit
OnOk P thrown = Unit
OnOk P undefined = Unit

-- the same as a record, which the lemmas take apart by the structure of the outcome
pub record Ensures {A : Type 0} (P : A → Type 0) (r : Outcome A) : Type 0 where
  pub ensures : OnOk P r

pub Ensures-ok : {A : Type 0} {P : A → Type 0} {a : A} → P a → Ensures P (ok a)
Ensures-ok p = record { ensures = p }

pub Ensures-bind :
    {A B : Type 0} {P : B → Type 0} (r : Outcome A) (f : A → Outcome B)
    → ((a : A) → Ensures P (f a))
    → Ensures P (Outcome.◌>>=◌ r f)
Ensures-bind (ok a) f h = h a
Ensures-bind (err _) f h = record { ensures = tt }
Ensures-bind thrown f h = record { ensures = tt }
Ensures-bind undefined f h = record { ensures = tt }

-- An action that keeps the predicate, and whose result satisfies another.
pub record Gives {S A : Type 0} (Inv : S → Type 0) (P : A → Type 0) (m : Action S A) : Type 0 where
  pub gives : (w : S) → Inv w → Inv (m w).1 × OnOk P (m w).0

always : {A : Type 0} (r : Outcome A) → OnOk (λ (a : A). Unit {0}) r
always (ok a) = tt
always (err _) = tt
always thrown = tt
always undefined = tt

recover_keeps :
    {S A : Type 0} (Inv : S → Type 0) (test : ErrorCode → Bool) (a : A) (r : Outcome A) (w : S)
    → Inv w
    → Inv (recover test a (λ _. (r, w)) w).1
recover_keeps Inv test a (ok _) w h = h
recover_keeps Inv test a (err _) w h = h
recover_keeps Inv test a thrown w h = h
recover_keeps Inv test a undefined w h = h

module _ {S : Type 0} {Inv : S → Type 0} where
  pub Keeps-lift : {A : Type 0} (r : Outcome A) → Keeps Inv (lift r)
  Keeps-lift r = record { keeps = λ w h. h }

  continue_keeps :
      {A B : Type 0} (P : A → Type 0) (r : Outcome A) (f : A → Action S B)
      → OnOk P r
      → ((a : A) → P a → Keeps Inv (f a))
      → (w : S) → Inv w
      → Inv (continue r f w).1
  continue_keeps P (ok a) f p hf w h = (hf a p).keeps w h
  continue_keeps P (err _) f p hf w h = h
  continue_keeps P thrown f p hf w h = h
  continue_keeps P undefined f p hf w h = h

  pub Gives-bind :
      {A B : Type 0} (P : A → Type 0) {m : Action S A} {f : A → Action S B}
      → Gives Inv P m
      → ((a : A) → P a → Keeps Inv (f a))
      → Keeps Inv (m >>= f)
  unfolding ◌>>=◌
  Gives-bind P {m = m} {f = f} hm hf = record {
    keeps =
        λ w h. let given = hm.gives w h in continue_keeps P (m w).0 f given.1 hf (m w).1 given.0;
  }

  pub Gives-pure : {A : Type 0} {P : A → Type 0} {a : A} → P a → Gives Inv P (pure a)
  Gives-pure p = record { gives = λ w h. (h, p) }

  pub Gives-Keeps : {A : Type 0} {m : Action S A} → Keeps Inv m → Gives Inv (λ _. Unit {0}) m
  Gives-Keeps {m = m} h = record { gives = λ w k. (h.keeps w k, always (m w).0) }

  pub Keeps-bind :
      {A B : Type 0} {m : Action S A} {f : A → Action S B}
      → Keeps Inv m
      → ((a : A) → Keeps Inv (f a))
      → Keeps Inv (m >>= f)
  Keeps-bind {m = m} hm hf = Gives-bind (λ _. Unit {0}) (Gives-Keeps hm) (λ a _. hf a)

  Gives-continue :
      {A B : Type 0} {Q : B → Type 0} (P : A → Type 0) (r : Outcome A) (f : A → Action S B)
      → OnOk P r
      → ((a : A) → P a → Gives Inv Q (f a))
      → (w : S) → Inv w
      → Inv (continue r f w).1 × OnOk Q (continue r f w).0
  Gives-continue P (ok a) f p hf w h = (hf a p).gives w h
  Gives-continue P (err _) f p hf w h = (h, tt)
  Gives-continue P thrown f p hf w h = (h, tt)
  Gives-continue P undefined f p hf w h = (h, tt)

  pub Gives-then :
      {A B : Type 0} {P : A → Type 0} {Q : B → Type 0} {m : Action S A} {f : A → Action S B}
      → Gives Inv P m
      → ((a : A) → P a → Gives Inv Q (f a))
      → Gives Inv Q (m >>= f)
  unfolding ◌>>=◌
  Gives-then {P = P} {m = m} {f = f} hm hf = record {
    gives =
        λ w h. let given = hm.gives w h in Gives-continue P (m w).0 f given.1 hf (m w).1 given.0;
  }

  pub Keeps-if :
      {A : Type 0} (b : Bool) {m n : Action S A}
      → Keeps Inv m
      → Keeps Inv n
      → Keeps Inv (if b then m else n)
  Keeps-if true hm hn = hm
  Keeps-if false hm hn = hn

  pub Keeps-option :
      {A B : Type 0} (o : Option B) {m : Action S A} {f : B → Action S A}
      → Keeps Inv m
      → ((b : B) → Keeps Inv (f b))
      → Keeps Inv (elim o [ none ↦ m | some b ↦ f b ])
  Keeps-option none hm hf = hm
  Keeps-option (some b) hm hf = hf b

  pub Keeps-recover :
      {A : Type 0} {m : Action S A} (test : ErrorCode → Bool) (a : A)
      → Keeps Inv m
      → Keeps Inv (recover test a m)
  Keeps-recover {m = m} test a hm = record {
    keeps = λ w h. recover_keeps Inv test a (m w).0 (m w).1 (hm.keeps w h);
  }
