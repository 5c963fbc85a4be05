-- ===== src/Metadata/Reading.antt =====
-- What repeated calls of `next` return (`Metadata` and `MetadataIterator` of src/metadata.cpp).
use metadata_manager.Prelude.{
  ℕ, zero, suc, ◌+◌, none, some, List, [], ◌∷◌, ◌++◌, length, get_elem?, get_elem?-append,
  length-append, ◌≡◌, refl, sym, ap, ◌∙◌,
}
use mathlib.Core.List.{append_assoc, append-nil}
use metadata_manager.Platform.{Platform}
use metadata_manager.ErrorCode.{end_of_row}
use metadata_manager.Outcome.{ok, err}
use metadata_manager.Action.{Action, pure, ◌>>=◌}
use metadata_manager.Metadata.{Reader, next, advance}

-- the results of `n` calls, up to an error
unfoldable pub times : {S A : Type 0} → ℕ → Action S A → Action S (List A)
unfolding ◌>>=◌
times zero m = pure []
times (suc n) m = do x ← m; xs ← times n m; pure (x ∷ xs)

length-snoc :
    {A : Type 0} → (before : List A) (x : A) → length before + 1 ≡ length (before ++ x ∷ [])
length-snoc before x = sym (length-append before (x ∷ []))

get_elem?-length : {A : Type 0} → (xs : List A) → get_elem? xs (length xs) ≡ none
get_elem?-length [] = refl
get_elem?-length (x ∷ xs) = get_elem?-length xs

module _ ⦃P : Platform⦄ {S : Type 0} where
  open P use {Tree}

  -- a reader that has given out `before` and is to give out `after`
  abbrev pub reader_at : List Tree → List Tree → S → Reader S
  reader_at before after s = record { objects = before ++ after; cursor = length before; store = s }

  -- a reader that has read nothing
  abbrev pub unread : ℕ → S → Reader S
  unread c s = record { objects = []; cursor = c; store = s }

  module _ (get_all : List Tree → Action S (List Tree)) where
    advance-some :
        (r : Reader S) (x : Tree)
        → get_elem? r.objects r.cursor ≡ some x
        → advance get_all r ≡ (ok x, record r { cursor = r.cursor + 1 })
    unfolding advance
    advance-some r x e = rw (e, advance) refl

    advance-none :
        (r : Reader S)
        → get_elem? r.objects r.cursor ≡ none
        → advance get_all r ≡ (err end_of_row, record r { cursor = 0 })
    unfolding advance
    advance-none r e = rw (e, advance) refl

    next-advance :
        (before : List Tree) (x : Tree) (after : List Tree) (s : S)
        → next get_all (reader_at before (x ∷ after) s)
          ≡ advance get_all (reader_at before (x ∷ after) s)
    unfolding next
    next-advance [] x after s = refl
    next-advance (y ∷ before) x after s = refl

    next-some :
        (before : List Tree) (x : Tree) (after : List Tree) (s : S)
        → next get_all (reader_at before (x ∷ after) s)
          ≡ (ok x, reader_at (before ++ x ∷ []) after s)
    next-some before x after s =
        next-advance before x after s
        ∙ advance-some (reader_at before (x ∷ after) s) x (get_elem?-append before (x ∷ after))
        ∙ ap (λ (objects, cursor). (ok x, record { objects = objects; cursor = cursor; store = s }))
            (rw (append_assoc before (x ∷ []) after, length-snoc before x) refl)

    times_lem :
        (before after : List Tree) (s : S)
        → times (length after) (next get_all) (reader_at before after s)
          ≡ (ok after, reader_at (before ++ after) [] s)
    unfolding times ◌>>=◌
    times_lem before [] s = ap (λ l. (ok [], reader_at l [] s)) (sym (append-nil before))
    times_lem before (x ∷ after) s = rw (next-some before x after s) (
        rw (times_lem (before ++ x ∷ []) after s)
          (ap (λ l. (ok (x ∷ after), reader_at l [] s)) (append_assoc before (x ∷ []) after)))

    next-unread :
        (x : Tree) (after : List Tree) (c : ℕ) (s s' : S)
        → get_all [] s ≡ (ok (x ∷ after), s')
        → next get_all (unread c s) ≡ next get_all (reader_at [] (x ∷ after) s')
    unfolding next
    next-unread x after c s s' e = rw (e, ap (λ r. r.1) e) refl

    next_end :
        (x : Tree) (after : List Tree) (s : S)
        → next get_all (reader_at (x ∷ after) [] s) ≡ (err end_of_row, reader_at [] (x ∷ after) s)
    unfolding next
    next_end x after s =
        advance-none (reader_at (x ∷ after) [] s) (
          ap (λ l. get_elem? l (length (x ∷ after))) (append-nil (x ∷ after))
          ∙ get_elem?-length (x ∷ after))
        ∙ ap (λ l. (err end_of_row, reader_at [] l s)) (append-nil (x ∷ after))

    -- Where no objects are read yet and `get_all` finds some, as many calls of `next` as there are objects
    -- return them in their order, and the call after these reports the end of the rows.
    pub next_lem :
        (x : Tree) (after : List Tree) (c : ℕ) (s s' : S)
        → get_all [] s ≡ (ok (x ∷ after), s')
        → (times (suc (length after)) (next get_all) (unread c s)
            ≡ (ok (x ∷ after), reader_at (x ∷ after) [] s'))
          × (next get_all (reader_at (x ∷ after) [] s')
              ≡ (err end_of_row, reader_at [] (x ∷ after) s'))
    unfolding times ◌>>=◌
    next_lem x after c s s' e =
        (rw (next-unread x after c s s' e) (times_lem [] (x ∷ after) s'), next_end x after s')
