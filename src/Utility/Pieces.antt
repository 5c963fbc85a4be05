-- ===== src/Utility/Pieces.antt =====
-- The pieces that `Utility::split` finds (src/common/utility.cpp).
use Prim.Native.Char.{Char, code}
use text.Mathlib.TextEquality.{Char-path}
use metadata_manager.Prelude.{
  ℕ, String, true, false, ◌≡◌, ◌≢◌, ◌∙◌, refl, ap, sym, ==_iff, List, [], ◌∷◌, All, ◌==◌, ◌⊎◌, inl,
  inr, Bool-cases,
}
use metadata_manager.Utility.{split, c_string, getline_loop, prepend}

-- No character of the text is the delimiter.
abbrev pub IsFree : ℕ → String → Type 0
IsFree d String.[] = Unit
IsFree d (String.◌∷◌ c s) = ((code c == d) ≡ false) × IsFree d s

abbrev pub append : String → String → String
append String.[] t = t
append (String.◌∷◌ c s) t = String.◌∷◌ c (append s t)

-- The pieces with one delimiter between two of them, and a text behind them.
abbrev pub joined : Char → List String → String → String
joined d [] end = end
joined d (piece ∷ []) end = append piece end
joined d (piece ∷ pieces) end = append piece (String.◌∷◌ d (joined d pieces end))

prepend-IsFree :
    (d : ℕ) (c : Char) (pieces : List String)
    → (code c == d) ≡ false
    → All (IsFree d) pieces
    → All (IsFree d) (prepend c pieces)
unfolding prepend
prepend-IsFree d c [] h a = ((h, tt), tt)
prepend-IsFree d c (piece ∷ pieces) h a = ((h, a.0), a.1)

joined-prepend :
    (d c : Char) (pieces : List String) (end : String)
    → pieces ≢ []
    → joined d (prepend c pieces) end ≡ String.◌∷◌ c (joined d pieces end)
unfolding prepend
joined-prepend d c [] end h = absurd (h refl)
joined-prepend d c (piece ∷ []) end h = refl
joined-prepend d c (piece ∷ next ∷ pieces) end h = refl

joined-empty :
    (d : Char) (pieces : List String) (end : String)
    → pieces ≢ []
    → joined d ("" ∷ pieces) end ≡ String.◌∷◌ d (joined d pieces end)
joined-empty d [] end h = absurd (h refl)
joined-empty d (piece ∷ pieces) end h = refl

prepend-ne_nil : (c : Char) (pieces : List String) → prepend c pieces ≢ []
unfolding prepend
prepend-ne_nil c [] h = cc
prepend-ne_nil c (piece ∷ pieces) h = cc

getline_loop-ne_nil : (d : ℕ) (c : Char) (s : String) → getline_loop d (String.◌∷◌ c s) ≢ []
unfolding getline_loop
getline_loop-ne_nil d c s h = elim (Bool-cases (code c == d)) [
  | inl e ↦ cc (rw e at h)
  | inr e ↦ prepend-ne_nil c (getline_loop d s) (rw e at h)
]

-- The text, or the text without a delimiter at its end.
abbrev IsJoined : Char → List String → String → Type 0
IsJoined d pieces s = (joined d pieces "" ≡ s) ⊎ (joined d pieces (String.◌∷◌ d "") ≡ s)

IsJoined-cons :
    (d c : Char) (s : String) (pieces more : List String)
    → ((end : String) → joined d more end ≡ String.◌∷◌ c (joined d pieces end))
    → IsJoined d pieces s
    → IsJoined d more (String.◌∷◌ c s)
IsJoined-cons d c s pieces more step (inl e) = inl (step "" ∙ ap (λ t. String.◌∷◌ c t) e)
IsJoined-cons d c s pieces more step (inr e) =
    inr (step (String.◌∷◌ d "") ∙ ap (λ t. String.◌∷◌ c t) e)

getline_loop_step :
    (d c c' : Char) (s : String)
    → IsJoined d (getline_loop (code d) (String.◌∷◌ c' s)) (String.◌∷◌ c' s)
    → IsJoined d
        (getline_loop (code d) (String.◌∷◌ c (String.◌∷◌ c' s)))
        (String.◌∷◌ c (String.◌∷◌ c' s))
unfolding getline_loop
getline_loop_step d c c' s j =
    let pieces = getline_loop (code d) (String.◌∷◌ c' s) in
    let some_piece = getline_loop-ne_nil (code d) c' s in
    elim (Bool-cases (code c == code d)) [
      | inl e ↦
          IsJoined-cons d c (String.◌∷◌ c' s) pieces _
            (λ end. rw e (
              joined-empty d pieces end some_piece
              ∙ ap (λ x. String.◌∷◌ x (joined d pieces end))
                  (sym (Char-path c d ((==_iff _ _).0 e)))))
            j
      | inr e ↦
          IsJoined-cons d c (String.◌∷◌ c' s) pieces _
            (λ end. rw e (joined-prepend d c pieces end some_piece)) j
    ]

getline_loop-IsFree : (d : ℕ) (s : String) → All (IsFree d) (getline_loop d s)
unfolding getline_loop
getline_loop-IsFree d String.[] = tt
getline_loop-IsFree d (String.◌∷◌ c s) = elim (Bool-cases (code c == d)) [
  | inl e ↦ rw e (tt, getline_loop-IsFree d s)
  | inr e ↦ rw e (prepend-IsFree d c (getline_loop d s) e (getline_loop-IsFree d s))
]

getline_loop_one :
    (d c : Char) → IsJoined d (getline_loop (code d) (String.◌∷◌ c "")) (String.◌∷◌ c "")
unfolding getline_loop prepend
getline_loop_one d c = elim (Bool-cases (code c == code d)) [
  | inl e ↦ inr (rw e (ap (λ x. String.◌∷◌ x "") (sym (Char-path c d ((==_iff _ _).0 e)))))
  | inr e ↦ inl (rw e)
]

getline_loop-IsJoined : (d : Char) (s : String) → IsJoined d (getline_loop (code d) s) s
unfolding getline_loop
getline_loop-IsJoined d String.[] = inl refl
getline_loop-IsJoined d (String.◌∷◌ c String.[]) = getline_loop_one d c
getline_loop-IsJoined d (String.◌∷◌ c (String.◌∷◌ c' s)) =
    getline_loop_step d c c' s (getline_loop-IsJoined d (String.◌∷◌ c' s))

-- The memory behind a text: nothing, or a NUL with anything behind it.
abbrev pub IsEnd : String → Type 0
IsEnd String.[] = Unit
IsEnd (String.◌∷◌ c s) = (code c == 0) ≡ true

c_string_lem : (s rest : String) → IsFree 0 s → IsEnd rest → c_string (append s rest) ≡ s
unfolding c_string
c_string_lem String.[] String.[] free end = refl
c_string_lem String.[] (String.◌∷◌ c rest) free end = rw end refl
c_string_lem (String.◌∷◌ c s) rest free end =
    rw free.0 (ap (λ t. String.◌∷◌ c t) (c_string_lem s rest free.1 end))

-- What is split is the text up to the first NUL, or all the text where it has none. No piece holds the
-- delimiter, and the pieces with a delimiter between two of them are that text, or that text without a
-- delimiter at its end.
pub split_lem :
    (d : Char) (s rest : String)
    → IsFree 0 s
    → IsEnd rest
    → All (IsFree (code d)) (split (code d) (append s rest))
      × ((joined d (split (code d) (append s rest)) "" ≡ s)
          ⊎ (joined d (split (code d) (append s rest)) (String.◌∷◌ d "") ≡ s))
unfolding split
split_lem d s rest free end =
    rw (c_string_lem s rest free end) (getline_loop-IsFree (code d) s, getline_loop-IsJoined d s)
