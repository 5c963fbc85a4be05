-- ===== src/Metadata/Iterator.antt =====
-- `Metadata::next` against `MetadataIterator::next` (src/metadata.cpp).
use metadata_manager.Prelude.{
  ℕ, zero, suc, ◌+◌, none, some, List, ◌∷◌, get_elem?, ◌≡◌, refl, sym, ap, ◌∙◌, Option-cases, inl,
  inr,
}
use metadata_manager.Platform.{Platform}
use metadata_manager.ErrorCode.{end_of_row}
use metadata_manager.Outcome.{Outcome, ok, err, thrown, undefined}
use metadata_manager.Action.{Action, ◌>>=◌, pure, continue}
use metadata_manager.Metadata.{Reader, next, advance, iterator_next}
use metadata_manager.Metadata.Structures.{next_object}
use metadata_manager.Metadata.Reading.{times}

-- the outcome of a call and of the calls behind it
abbrev joined : {A : Type 0} → Outcome A → Outcome (List A) → Outcome (List A)
joined (ok a) (ok xs) = ok (a ∷ xs)
joined (ok a) (err e) = err e
joined (ok a) thrown = thrown
joined (ok a) undefined = undefined
joined (err e) rest = err e
joined thrown rest = thrown
joined undefined rest = undefined

continue-pure :
    {S A : Type 0} (a : A) (r : Outcome (List A)) (s : S)
    → (continue r (λ xs. pure (a ∷ xs)) s).0 ≡ joined (ok a) r
continue-pure a (ok xs) s = refl
continue-pure a (err c) s = refl
continue-pure a thrown s = refl
continue-pure a undefined s = refl

times-suc :
    {S A : Type 0} (n : ℕ) (m : Action S A) (s s' : S) (r : Outcome A)
    → m s ≡ (r, s')
    → (times (suc n) m s).0 ≡ joined r (times n m s').0
unfolding times ◌>>=◌
times-suc n m s s' (ok a) e = rw e (continue-pure a (times n m s').0 _)
times-suc n m s s' (err c) e = rw e refl
times-suc n m s s' thrown e = rw e refl
times-suc n m s s' undefined e = rw e refl

-- A failure ends the calls.
joined-failure :
    {A : Type 0} (r : Outcome A) (rest rest' : Outcome (List A))
    → (((a : A) → r ≡ ok a → rest ≡ rest'))
    → joined r rest ≡ joined r rest'
joined-failure (ok a) rest rest' e = rw (e a refl) refl
joined-failure (err c) rest rest' e = refl
joined-failure thrown rest rest' e = refl
joined-failure undefined rest rest' e = refl

module _ ⦃P : Platform⦄ {S A : Type 0}
    (get_all : List (Platform.Tree P) → Action S (List (Platform.Tree P)))
    (convert : Platform.Tree P → Outcome A) where
  open P use {Tree}

  -- a reader of objects that have been read
  abbrev pub reader : Tree → List Tree → ℕ → S → Reader S
  reader x xs cursor s = record { objects = x ∷ xs; cursor = cursor; store = s }

  next_object-some :
      (x : Tree) (xs : List Tree) (cursor : ℕ) (s : S) (pt : Tree)
      → get_elem? (x ∷ xs) cursor ≡ some pt
      → next_object get_all convert (reader x xs cursor s)
        ≡ (convert pt, reader x xs (cursor + 1) s)
  unfolding next_object next advance ◌>>=◌
  next_object-some x xs cursor s pt at = rw at refl

  next_object-none :
      (x : Tree) (xs : List Tree) (cursor : ℕ) (s : S)
      → get_elem? (x ∷ xs) cursor ≡ none
      → next_object get_all convert (reader x xs cursor s) ≡ (err end_of_row, reader x xs 0 s)
  unfolding next_object next advance ◌>>=◌
  next_object-none x xs cursor s at = rw at refl

  -- The cursor of the iterator moves where the conversion succeeds.
  abbrev moved : Outcome A → ℕ → ℕ
  moved (ok a) cursor = cursor + 1
  moved (err e) cursor = cursor
  moved thrown cursor = cursor
  moved undefined cursor = cursor

  converted_at :
      (r : Outcome A) (cursor : ℕ)
      → elim r as (λ _. Outcome A × ℕ) [
        | ok a ↦ (ok a, cursor + 1)
        | err e ↦ (err e, cursor)
        | thrown ↦ (thrown, cursor)
        | undefined ↦ (undefined, cursor)
      ]
        ≡ (r, moved r cursor)
  converted_at (ok a) cursor = refl
  converted_at (err e) cursor = refl
  converted_at thrown cursor = refl
  converted_at undefined cursor = refl

  iterator_next-some :
      (objects : List Tree) (cursor : ℕ) (pt : Tree)
      → get_elem? objects cursor ≡ some pt
      → iterator_next convert objects cursor ≡ (convert pt, moved (convert pt) cursor)
  unfolding iterator_next
  iterator_next-some objects cursor pt at =
      rw (at, iterator_next) (converted_at (convert pt) cursor)

  iterator_next-none :
      (objects : List Tree) (cursor : ℕ)
      → get_elem? objects cursor ≡ none
      → iterator_next convert objects cursor ≡ (err end_of_row, cursor)
  unfolding iterator_next
  iterator_next-none objects cursor at = rw (at, iterator_next) refl

  -- Where objects have been read, any number of calls of `Metadata::next` on structures of the same state, up
  -- to the first that fails, has the outcome that as many calls of `MetadataIterator::next` have from the same cursor: the same
  -- structures in the same order, the same error at the end of the rows, or the same failure of a conversion.
  pub next_object-iterator_next :
      (x : Tree) (xs : List Tree) (n cursor : ℕ) (s : S)
      → (times n (next_object get_all convert) (reader x xs cursor s)).0
        ≡ (times n (iterator_next convert (x ∷ xs)) cursor).0
  unfolding times
  next_object-iterator_next x xs zero cursor s = refl
  next_object-iterator_next x xs (suc n) cursor s =
      elim (Option-cases (get_elem? (x ∷ xs) cursor)) [
        | inl e ↦
            times-suc n (next_object get_all convert) (reader x xs cursor s) _ _
              (next_object-none x xs cursor s e)
            ∙ sym (
                times-suc n (iterator_next convert (x ∷ xs)) cursor _ _
                  (iterator_next-none (x ∷ xs) cursor e))
        | inr (pt, e) ↦
            times-suc n (next_object get_all convert) (reader x xs cursor s) _ _
              (next_object-some x xs cursor s pt e)
            ∙ joined-failure (convert pt) _ _ (λ a converted.
              next_object-iterator_next x xs n (cursor + 1) s
              ∙ ap (λ r. (times n (iterator_next convert (x ∷ xs)) (moved r cursor)).0)
                  (sym converted))
            ∙ sym (
                times-suc n (iterator_next convert (x ∷ xs)) cursor _ _
                  (iterator_next-some (x ∷ xs) cursor pt e))
      ]
