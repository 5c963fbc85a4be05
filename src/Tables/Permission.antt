-- ===== src/Tables/Permission.antt =====
-- `Tables::param_check_permission` of src/tables.cpp.
pub mod Grantor
use Prim.Native.Char.{Char, code}
use metadata_manager.Prelude.{
  ℕ, String, Bool, true, false, Option, none, some, List, [], ◌∷◌, ◌==◌, ◌||◌, ◌&&◌, not, leb,
  str_eq, if◌then◌else◌,
}
use metadata_manager.ErrorCode.{invalid_parameter}
use metadata_manager.Outcome.{Outcome, ok, err}
use metadata_manager.Ptree.{value_or}

-- `.` stands for no end of a line.
unfoldable pub is_one_line : String → Bool
is_one_line String.[] = true
is_one_line (String.◌∷◌ c s) =
    let rest = is_one_line s in if code c == 10 || code c == 13 then false else rest

-- What stands behind the last equals sign that is not the last character.
unfoldable pub behind_equals : String → Option String
behind_equals String.[] = none
behind_equals (String.◌∷◌ c s) = elim (behind_equals s) [
  | some part ↦ some part
  | none ↦ if code c == b'=' && not (str_eq s "") then some s else none
]

-- The second group of `(.*=|)(.+)(/.*|)` at a whole text, and an empty text where it does not match. The first
-- group takes what it can, and so does the second, which leaves the empty text for the third.
unfoldable pub valid_part : String → String
unfolding is_one_line behind_equals
valid_part permission =
    if is_one_line permission then value_or permission (behind_equals permission) else ""

-- `regex_replace(part, "\s", "")`
unfoldable pub without_spaces : String → String
without_spaces String.[] = ""
without_spaces (String.◌∷◌ c s) =
    let rest = without_spaces s in
    if code c == 32 || (leb 9 (code c) && leb (code c) 13) then rest else String.◌∷◌ c rest

-- `[rawdDxt]`
abbrev pub is_permission : ℕ → Bool
is_permission c =
    c == b'r' || c == b'a' || c == b'w' || c == b'd' || c == b'D' || c == b'x' || c == b't'

unfoldable pub check_characters : String → Outcome (Unit {0})
check_characters String.[] = ok tt
check_characters (String.◌∷◌ c s) =
    let rest = check_characters s in if is_permission (code c) then rest else err invalid_parameter

unfoldable pub param_check_permission : String → Outcome (Unit {0})
unfolding valid_part without_spaces check_characters
param_check_permission permission =
    let check_permission = without_spaces (valid_part permission) in
    if str_eq check_permission "" then err invalid_parameter else check_characters check_permission
