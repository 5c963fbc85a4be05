-- ===== src/Session/Keeps.antt =====
-- Actions that leave the files and the transaction lock as they are: what the operations on loaded
-- contents do (`load_contents`, `set_contents` of src/dao/json/db_session_manager_json.cpp).
use metadata_manager.Prelude.{
  String, Bool, true, false, List, [], ◌∷◌, ◌≡◌, refl, ap, ◌∙◌, arith, if◌then◌else◌, Option, none,
  some, Option-cases, inl, inr,
}
use metadata_manager.Key.{Key}
use metadata_manager.ErrorCode.{ErrorCode}
use metadata_manager.Platform.{Platform}
use metadata_manager.Outcome.{Outcome, ok, err, thrown, undefined}
use metadata_manager.Action.{Action, lift, continue, recover, ◌>>=◌}
use metadata_manager.Session.{World, load_contents, loaded, read_contents, set_contents}
use metadata_manager.Session.Contents.{find_content}

module _ ⦃P : Platform⦄ where
  open P use {Tree}

  abbrev pub IsKept : World → World → Type 0
  IsKept w w' = (w'.disk ≡ w.disk) × (w'.locking ≡ w.locking)

  pub record Keeps {A : Type 0} (m : Action World A) : Type 0 where
    pub keeps : (w : World) → IsKept w (m w).1

  pub Keeps-lift : {A : Type 0} (r : Outcome A) → Keeps (lift r)
  Keeps-lift r = record { keeps = λ w. (refl, refl) }

  IsKept-continue :
      {A B : Type 0} (r : Outcome A) (f : A → Action World B)
      → ((a : A) → Keeps (f a))
      → (w : World) → IsKept w (continue r f w).1
  IsKept-continue (ok a) f h w = (h a).keeps w
  IsKept-continue (err _) f h w = (refl, refl)
  IsKept-continue thrown f h w = (refl, refl)
  IsKept-continue undefined f h w = (refl, refl)

  pub Keeps-bind :
      {A B : Type 0} {m : Action World A} {f : A → Action World B}
      → Keeps m
      → ((a : A) → Keeps (f a))
      → Keeps (m >>= f)
  unfolding ◌>>=◌
  Keeps-bind {m = m} {f = f} hm hf = record {
    keeps = λ w.
        let after = IsKept-continue (m w).0 f hf (m w).1 in
        (after.0 ∙ (hm.keeps w).0, after.1 ∙ (hm.keeps w).1);
  }

  pub Keeps-if :
      {A : Type 0} (b : Bool) {m n : Action World A}
      → Keeps m
      → Keeps n
      → Keeps (if b then m else n)
  Keeps-if true hm hn = hm
  Keeps-if false hm hn = hn

  pub Keeps-option :
      {A B : Type 0} (o : Option B) {m : Action World A} {f : B → Action World A}
      → Keeps m
      → ((b : B) → Keeps (f b))
      → Keeps (elim o [ none ↦ m | some b ↦ f b ])
  Keeps-option none hm hf = hm
  Keeps-option (some b) hm hf = hf b

  pub Keeps-list :
      {A B : Type 0} (l : List B) {m : Action World A} {f : B → List B → Action World A}
      → Keeps m
      → ((b : B) (bs : List B) → Keeps (f b bs))
      → Keeps (elim l [ [] ↦ m | b ∷ bs ↦ f b bs ])
  Keeps-list [] hm hf = hm
  Keeps-list (b ∷ bs) hm hf = hf b bs

  IsKept-recover :
      {A : Type 0} (test : ErrorCode → Bool) (a : A) (r : Outcome A) (w : World)
      → (recover test a (λ _. (r, w)) w).1 ≡ w
  IsKept-recover test a (ok _) w = refl
  IsKept-recover test a (err _) w = refl
  IsKept-recover test a thrown w = refl
  IsKept-recover test a undefined w = refl

  pub Keeps-recover :
      {A : Type 0} {m : Action World A} (test : ErrorCode → Bool) (a : A)
      → Keeps m
      → Keeps (recover test a m)
  Keeps-recover {m = m} test a hm = record {
    keeps = λ w.
        let same = IsKept-recover test a (m w).0 (m w).1 in
        (ap (λ v. v.disk) same ∙ (hm.keeps w).0, ap (λ v. v.locking) same ∙ (hm.keeps w).1);
  }

  IsKept-loaded : (p : String) (r : Outcome Tree) (w : World) → IsKept w (loaded p r w).1
  unfolding loaded
  IsKept-loaded p (ok t) w = ground arith
  IsKept-loaded p (err _) w = (refl, refl)
  IsKept-loaded p thrown w = (refl, refl)
  IsKept-loaded p undefined w = (refl, refl)

  pub Keeps-load_contents : (p : String) (root_node : Key) → Keeps (load_contents p root_node)
  unfolding load_contents
  Keeps-load_contents p root_node = record {
    keeps = λ w. elim (Option-cases (find_content p w.contents_map)) [
      | inl e ↦ rw (e, load_contents) (IsKept-loaded p (read_contents p root_node w.disk) w)
      | inr (c, e) ↦ rw (e, load_contents) (refl, refl)
    ];
  }

  pub Keeps-set_contents : (p : String) (t : Tree) → Keeps (set_contents p t)
  unfolding set_contents
  Keeps-set_contents p t = record { keeps = λ w. (refl, refl) }
