-- ===== src/Utility/Numeric.antt =====
-- The numbers that `Utility::str_to_numeric` reads (src/common/utility.cpp).
use Prim.Native.Char.{code}
use native.Mathlib.Numerals.{add-one}
use metadata_manager.Prelude.{
  ℕ, zero, suc, ◌+◌, ◌*◌, ◌/◌, ◌%◌, ◌<◌, ◌≤◌, ℤ, pos, negsuc, IsInt64, int64_max, String, to_string,
  ◌≡◌, refl, ◌∙◌, ap, Option, none, some, arith, Bool-cases, inl, inr, ltb, ◌==◌, false,
}
use metadata_manager.Prelude.Text.{digit, digits, digit_value, digit_value-digit, digits_head}
use metadata_manager.ErrorCode.{internal_error}
use metadata_manager.Outcome.{ok, err}
use metadata_manager.Utility.{digit_prefix, int_of, in_range, negated, str_to_int64}

digit_prefix-cons :
    (a : Option ℕ) (d : ℕ) (s : String)
    → d < 10
    → digit_prefix a (String.◌∷◌ (digit d) s) ≡ digit_prefix (some (int_of a * 10 + d)) s
unfolding digit_prefix
digit_prefix-cons a d s h = rw (digit_value-digit d h, digit_prefix)

digit_prefix-digits :
    (f n : ℕ) (acc : String)
    → n < f
    → digit_prefix none (digits f n acc) ≡ digit_prefix (some n) acc
unfolding digits
digit_prefix-digits zero n acc h = elim h [ ]
digit_prefix-digits (suc f) n acc h = elim (Bool-cases (ltb n 10)) [
  | inl e ↦ rw e (
      digit_prefix-cons none n acc (ground arith)
      ∙ ap (λ a. digit_prefix (some a) acc) (omega arith))
  | inr e ↦ rw e (
      digit_prefix-digits f (n / 10) (String.◌∷◌ (digit (n % 10)) acc) (ground arith)
      ∙ digit_prefix-cons (some (n / 10)) (n % 10) acc (omega arith)
      ∙ ap (λ a. digit_prefix (some a) acc) (omega arith))
]

digit_ne_minus : (d : ℕ) → d < 10 → (code (digit d) == b'-') ≡ false
unfolding digit_value
digit_ne_minus d h = ground (arith, digit_value-digit d h)

-- A text that starts with a digit is read as a number without a sign.
str_to_int64-digit :
    (d : ℕ) (s t : String)
    → d < 10
    → t ≡ String.◌∷◌ (digit d) s
    → str_to_int64 t ≡ in_range int64_max pos (digit_prefix none t)
unfolding str_to_int64
str_to_int64-digit d s t h e = rw e (rw (digit_ne_minus d h) refl)

in_range-pos :
    (n : ℕ) → n ≤ int64_max → in_range int64_max pos (digit_prefix (some n) "") ≡ ok (pos n)
unfolding in_range digit_prefix
in_range-pos n h = ground arith

in_range-negsuc :
    (n : ℕ)
    → n ≤ int64_max
    → in_range (int64_max + 1) negated (digit_prefix (some (suc n)) "") ≡ ok (negsuc n)
unfolding in_range digit_prefix
in_range-negsuc n h = ground arith

-- Every integer of 64 bits is read back from its decimal text.
pub str_to_int64-to_string : (v : ℤ) → IsInt64 v → str_to_int64 (to_string v) ≡ ok v
unfolding to_string str_to_int64
str_to_int64-to_string (pos n) h =
    let (d, s, small, e) = digits_head (n + 1) n "" (omega arith) in
    str_to_int64-digit d s _ small e
    ∙ rw (digit_prefix-digits (n + 1) n "" (omega arith)) (in_range-pos n h)
str_to_int64-to_string (negsuc n) h =
    rw (digit_prefix-digits (n + 2) (n + 1) "" (omega arith)) (rw add-one (in_range-negsuc n h))

in_range-pos_above :
    (n : ℕ) → int64_max < n → in_range int64_max pos (digit_prefix (some n) "") ≡ err internal_error
unfolding in_range digit_prefix
in_range-pos_above n h = ground arith

in_range-negated_above :
    (n : ℕ)
    → int64_max < n
    → in_range (int64_max + 1) negated (digit_prefix (some (n + 1)) "") ≡ err internal_error
unfolding in_range digit_prefix
in_range-negated_above n h = ground arith

-- The decimal text of an integer that 64 bits do not hold, however long it is, is refused with INTERNAL_ERROR.
pub str_to_int64_overflow : (v : ℤ) → ¬ IsInt64 v → str_to_int64 (to_string v) ≡ err internal_error
unfolding to_string str_to_int64
str_to_int64_overflow (pos n) h =
    let (d, s, small, e) = digits_head (n + 1) n "" (omega arith) in
    str_to_int64-digit d s _ small e
    ∙ rw (digit_prefix-digits (n + 1) n "" (omega arith)) (in_range-pos_above n (ground arith))
str_to_int64_overflow (negsuc n) h =
    rw (digit_prefix-digits (n + 2) (n + 1) "" (omega arith))
      (in_range-negated_above n (ground arith))
