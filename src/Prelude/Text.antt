-- ===== src/Prelude/Text.antt =====
-- `std::to_string` of an `std::int64_t`: decimal digits, with `-` before a negative value.
use Prim.Native.Nat.{ℕ, zero, suc, ◌+◌, ◌-◌, ◌/◌, ◌%◌, ◌<◌}
use Prim.Native.Char.{Char, code}
use Prim.Native.String.{String}
use mathlib.Core.Path.{◌≡◌, refl}
use mathlib.Core.Logic.{inl, inr}
use mathlib.Core.Bool.{◌&&◌}
use mathlib.Core.Option.{Option, none, some}
use native.Mathlib.Omega.{arith}
use metadata_manager.Prelude.Tests.{Bool-cases, ltb, leb, if◌then◌else◌}
use metadata_manager.Prelude.Int.{ℤ, pos, negsuc}

unfoldable pub digit : ℕ → Char
digit zero = "0"
digit (suc zero) = "1"
digit (suc (suc zero)) = "2"
digit (suc (suc (suc zero))) = "3"
digit (suc (suc (suc (suc zero)))) = "4"
digit (suc (suc (suc (suc (suc zero))))) = "5"
digit (suc (suc (suc (suc (suc (suc zero)))))) = "6"
digit (suc (suc (suc (suc (suc (suc (suc zero))))))) = "7"
digit (suc (suc (suc (suc (suc (suc (suc (suc zero)))))))) = "8"
digit _ = "9"

-- The fuel is the number itself, which falls at each division: `n < fuel` is enough.
unfoldable pub digits : ℕ → ℕ → String → String
unfolding digit
digits zero n acc = acc
digits (suc f) n acc =
    let rest = digits f (n / 10) (String.◌∷◌ (digit (n % 10)) acc) in
    if ltb n 10 then String.◌∷◌ (digit n) acc else rest

unfoldable pub to_string : ℤ → String
unfolding digits
to_string (pos n) = digits (n + 1) n ""
to_string (negsuc n) = String.◌∷◌ "-" (digits (n + 2) (n + 1) "")

-- The value of a decimal digit.
unfoldable pub digit_value : Char → Option ℕ
digit_value c = if leb 48 (code c) && leb (code c) 57 then some (code c - 48) else none

pub digit_value-digit : (d : ℕ) → d < 10 → digit_value (digit d) ≡ some d
unfolding digit_value digit
digit_value-digit zero h = refl
digit_value-digit (suc zero) h = refl
digit_value-digit (suc (suc zero)) h = refl
digit_value-digit (suc (suc (suc zero))) h = refl
digit_value-digit (suc (suc (suc (suc zero)))) h = refl
digit_value-digit (suc (suc (suc (suc (suc zero))))) h = refl
digit_value-digit (suc (suc (suc (suc (suc (suc zero)))))) h = refl
digit_value-digit (suc (suc (suc (suc (suc (suc (suc zero))))))) h = refl
digit_value-digit (suc (suc (suc (suc (suc (suc (suc (suc zero)))))))) h = refl
digit_value-digit (suc (suc (suc (suc (suc (suc (suc (suc (suc zero))))))))) h = refl
digit_value-digit (suc (suc (suc (suc (suc (suc (suc (suc (suc (suc n)))))))))) h =
    absurd (omega arith)

-- The text of a number starts with a digit.
pub digits_head :
    (f n : ℕ) (acc : String)
    → n < f
    → (d : ℕ) × (s : String) × (d < 10) × (digits f n acc ≡ String.◌∷◌ (digit d) s)
unfolding digits
digits_head zero n acc h = elim h [ ]
digits_head (suc f) n acc h = elim (Bool-cases (ltb n 10)) [
  | inl e ↦ (n, acc, ground arith, rw e refl)
  | inr e ↦ rw e (digits_head f (n / 10) (String.◌∷◌ (digit (n % 10)) acc) (ground arith))
]

to_string_positive : to_string (pos 100002) ≡ "100002"
unfolding to_string
to_string_positive = refl

to_string_negative : to_string (negsuc 0) ≡ "-1"
unfolding to_string
to_string_negative = refl
