-- ===== src/Utility.antt =====
-- `Utility` of src/common/utility.cpp and the conversion of Boolean expressions of
-- src/dao/postgresql/dbc_utils_pg.cpp: conversions of texts.
pub mod Numeric
pub mod Pieces
use Prim.Native.Char.{Char, code}
use metadata_manager.Prelude.{
  ℕ, zero, suc, ◌+◌, ◌*◌, ℤ, pos, negsuc, int64_max, String, Bool, true, false, not, ◌&&◌, ◌||◌,
  Option, none, some, List, [], ◌∷◌, leb, ◌==◌, ◌≡◌, refl, str_eq, if◌then◌else◌,
}
use metadata_manager.Prelude.Text.{digit_value}
use metadata_manager.ErrorCode.{internal_error}
use metadata_manager.Outcome.{Outcome, ok, err}

abbrev pub uint64_max : ℕ
uint64_max = 18446744073709551615

abbrev pub int_of : Option ℕ → ℕ
int_of none = 0
int_of (some n) = n

-- The digits at the start of a text, as `std::from_chars` reads them: what follows them is left, and
-- `none` stands for no digit.
unfoldable pub digit_prefix : Option ℕ → String → Option ℕ
unfolding digit_value
digit_prefix acc String.[] = acc
digit_prefix acc (String.◌∷◌ c s) = elim (digit_value c) [
  | none ↦ acc
  | some d ↦ digit_prefix (some (int_of acc * 10 + d)) s
]

in_range : ℕ → (ℕ → ℤ) → Option ℕ → Outcome ℤ
in_range max make none = err internal_error
in_range max make (some n) = if leb n max then ok (make n) else err internal_error

abbrev pub negated : ℕ → ℤ
negated zero = pos 0
negated (suc n) = negsuc n

-- `str_to_numeric` at `std::int64_t` and at `std::uint64_t`
unfoldable pub str_to_int64 : String → Outcome ℤ
unfolding digit_prefix in_range
str_to_int64 String.[] = err internal_error
str_to_int64 (String.◌∷◌ c s) =
    if code c == b'-'
    then in_range (int64_max + 1) negated (digit_prefix none s)
    else in_range int64_max pos (digit_prefix none (String.◌∷◌ c s))

unfoldable pub str_to_uint64 : String → Outcome ℕ
unfolding digit_prefix
str_to_uint64 s = elim (digit_prefix none s) [
  | none ↦ err internal_error
  | some n ↦ if leb n uint64_max then ok n else err internal_error
]

lower : ℕ → ℕ
lower c = if leb b'A' c && leb c b'Z' then c + 32 else c

is_space : ℕ → Bool
is_space c = c == 32 || (leb 9 c && leb c 13)

starts : List ℕ → String → Bool
unfolding lower
starts [] s = true
starts (p ∷ word) String.[] = false
starts (p ∷ word) (String.◌∷◌ c s) = lower (code c) == p && starts word s

-- The stream skips white space, and reads the longest part of a name.
unfoldable pub str_to_boolean : String → Bool
unfolding is_space starts
str_to_boolean String.[] = false
str_to_boolean (String.◌∷◌ c s) =
    if is_space (code c)
    then str_to_boolean s
    else starts (b't' ∷ b'r' ∷ b'u' ∷ b'e' ∷ []) (String.◌∷◌ c s)

unfoldable pub boolean_to_str : Bool → String
boolean_to_str true = "true"
boolean_to_str false = "false"

-- `.` of a regular expression stands for a character that ends no line.
one_line : String → Bool
one_line String.[] = true
one_line (String.◌∷◌ c s) = not (code c == 10) && not (code c == 13) && one_line s

-- `^([…].*|d)$` for the letters and the digit of a value
matches : ℕ → ℕ → ℕ → ℕ → String → String → Bool
unfolding one_line
matches p q r t d String.[] = false
matches p q r t d (String.◌∷◌ c s) =
    ((code c == p || code c == q || code c == r || code c == t) && one_line s)
    || str_eq (String.◌∷◌ c s) d

unfoldable pub convert_boolean_expression : String → String
unfolding matches boolean_to_str
convert_boolean_expression string =
    let is_true = matches b't' b'T' b'y' b'Y' "1" string in
    let is_false = matches b'f' b'F' b'n' b'N' "0" string in
    if is_true || is_false then boolean_to_str is_true else ""

-- A character before the first piece.
prepend : Char → List String → List String
prepend c [] = String.◌∷◌ c "" ∷ []
prepend c (piece ∷ pieces) = String.◌∷◌ c piece ∷ pieces

-- `std::stringstream ss{source.data()}`: the length of the view is dropped, and the text ends before the first
-- NUL of the memory that the view points to.
unfoldable pub c_string : String → String
c_string String.[] = ""
c_string (String.◌∷◌ c s) = let rest = c_string s in if code c == 0 then "" else String.◌∷◌ c rest

-- `std::getline` up to each delimiter: behind the last one there is a piece only if it is not empty.
unfoldable pub getline_loop : ℕ → String → List String
unfolding prepend
getline_loop delimiter String.[] = []
getline_loop delimiter (String.◌∷◌ c s) =
    let pieces = getline_loop delimiter s in
    if code c == delimiter then "" ∷ pieces else prepend c pieces

-- The source is the memory from `source.data()` on.
unfoldable pub split : ℕ → String → List String
unfolding c_string getline_loop
split delimiter source = getline_loop delimiter (c_string source)

split_acl : split b',' "a=r/a,,b" ≡ "a=r/a" ∷ "" ∷ "b" ∷ []
unfolding split
split_acl = refl

reads_prefix : str_to_int64 "-12ab" ≡ ok (negsuc 11)
unfolding str_to_int64
reads_prefix = refl

true_letters : convert_boolean_expression "Yes" ≡ "true"
unfolding convert_boolean_expression
true_letters = refl
