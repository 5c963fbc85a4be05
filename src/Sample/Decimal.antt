-- ===== src/Sample/Decimal.antt =====
-- A reader of decimal numbers that undoes `to_string`: an instance of the translator of
-- `get_optional<int64_t>`.
use native.Mathlib.Numerals.{add-one}
use Prim.Native.Char.{Char, code}
use metadata_manager.Prelude.{
  ℕ, zero, suc, ◌+◌, ◌*◌, ◌/◌, ◌%◌, ◌<◌, ℤ, pos, negsuc, IsInt64, int64_max, String, to_string, ◌≡◌,
  ◌∙◌, ap, Option, none, some, arith, Bool-cases, inl, inr, ◌&&◌, ltb, leb, if◌then◌else◌,
}
use metadata_manager.Prelude.Text.{digit, digits, digit_value, digit_value-digit}

read_digits : ℕ → String → Option ℕ
read_digits a String.[] = some a
read_digits a (String.◌∷◌ c s) = elim (digit_value c) [
  | none ↦ none
  | some d ↦ read_digits (a * 10 + d) s
]

read_digits-cons :
    (a d : ℕ) (s : String)
    → d < 10
    → read_digits a (String.◌∷◌ (digit d) s) ≡ read_digits (a * 10 + d) s
unfolding read_digits
read_digits-cons a d s h = rw (digit_value-digit d h, read_digits)

read_digits-digits :
    (f n : ℕ) (acc : String) → n < f → read_digits 0 (digits f n acc) ≡ read_digits n acc
unfolding digits
read_digits-digits zero n acc h = elim h [ ]
read_digits-digits (suc f) n acc h = elim (Bool-cases (ltb n 10)) [
  | inl e ↦
      rw e (read_digits-cons 0 n acc (ground arith) ∙ ap (λ a. read_digits a acc) (omega arith))
  | inr e ↦ rw e (
      read_digits-digits f (n / 10) (String.◌∷◌ (digit (n % 10)) acc) (ground arith)
      ∙ read_digits-cons (n / 10) (n % 10) acc (omega arith)
      ∙ ap (λ a. read_digits a acc) (omega arith))
]

-- What stands behind a minus sign.
negated : Char → Option ℕ → Option ℤ
negated c none = none
negated c (some zero) = none
negated c (some (suc n)) = if leb 45 (code c) && leb (code c) 45 then some (negsuc n) else none

signed : Option ℕ → String → Option ℤ
signed (some n) s = some (pos n)
signed none String.[] = none
signed none (String.◌∷◌ c s) = negated c (read_digits 0 s)

-- A number outside the range of `int64_t` is no value.
in_range : Option ℤ → Option ℤ
in_range none = none
in_range (some (pos n)) = if leb n int64_max then some (pos n) else none
in_range (some (negsuc n)) = if leb n int64_max then some (negsuc n) else none

unfoldable pub to_int : String → Option ℤ
unfolding read_digits signed negated digit_value in_range
to_int s = in_range (signed (read_digits 0 s) s)

in_range-some : (v : ℤ) → IsInt64 v → in_range (some v) ≡ some v
unfolding in_range
in_range-some (pos n) h = ground arith
in_range-some (negsuc n) h = ground arith

in_range-IsInt64 : (o : Option ℤ) (v : ℤ) → in_range o ≡ some v → IsInt64 v
unfolding in_range
in_range-IsInt64 none v h = cc
in_range-IsInt64 (some (pos n)) (pos m) h = ground arith
in_range-IsInt64 (some (pos n)) (negsuc m) h = absurd (ground arith)
in_range-IsInt64 (some (negsuc n)) (pos m) h = absurd (ground arith)
in_range-IsInt64 (some (negsuc n)) (negsuc m) h = ground arith

pub to_int-to_string : (v : ℤ) → IsInt64 v → to_int (to_string v) ≡ some v
unfolding to_int to_string
to_int-to_string (pos n) h =
    rw (read_digits-digits (n + 1) n "" (omega arith)) (in_range-some (pos n) h)
to_int-to_string (negsuc n) h =
    rw (read_digits-digits (n + 2) (n + 1) "" (omega arith))
      (rw add-one (in_range-some (negsuc n) h))

pub to_int-IsInt64 : (s : String) (v : ℤ) → to_int s ≡ some v → IsInt64 v
unfolding to_int
to_int-IsInt64 s v h = in_range-IsInt64 (signed (read_digits 0 s) s) v h
