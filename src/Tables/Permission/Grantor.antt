-- ===== src/Tables/Permission/Grantor.antt =====
-- A permission with a grantor behind it (src/tables.cpp, `Tables::param_check_permission`).
use Prim.Native.Char.{Char, code}
use metadata_manager.Prelude.{
  String, Option, none, some, ◌==◌, ◌||◌, ◌&&◌, not, leb, str_eq, ◌≡◌, ◌⊎◌, inl, inr, refl,
  Bool-cases, if◌then◌else◌,
}
use metadata_manager.ErrorCode.{invalid_parameter}
use metadata_manager.Outcome.{err}
use metadata_manager.Ptree.{value_or}
use metadata_manager.Utility.Pieces.{IsFree, append}
use metadata_manager.Tables.Permission.{
  is_one_line, behind_equals, valid_part, without_spaces, check_characters, is_permission,
  param_check_permission,
}

-- a text with a slash
abbrev HasSlash : String → Type 0
HasSlash String.[] = ⊥
HasSlash (String.◌∷◌ c s) = (code c ≡ b'/') ⊎ HasSlash s

without_spaces-HasSlash : (s : String) → HasSlash s → HasSlash (without_spaces s)
unfolding without_spaces
without_spaces-HasSlash String.[] h = h
without_spaces-HasSlash (String.◌∷◌ c s) (inl e) = rw e (inl e)
without_spaces-HasSlash (String.◌∷◌ c s) (inr h) =
    elim (Bool-cases (code c == 32 || (leb 9 (code c) && leb (code c) 13))) [
      | inl e ↦ rw e (without_spaces-HasSlash s h)
      | inr e ↦ rw e (inr (without_spaces-HasSlash s h))
    ]

check_characters-HasSlash : (s : String) → HasSlash s → check_characters s ≡ err invalid_parameter
unfolding check_characters
check_characters-HasSlash String.[] h = absurd h
check_characters-HasSlash (String.◌∷◌ c s) (inl e) = rw e refl
check_characters-HasSlash (String.◌∷◌ c s) (inr h) = elim (Bool-cases (is_permission (code c))) [
  | inl e ↦ rw e (check_characters-HasSlash s h)
  | inr e ↦ rw e refl
]

append-HasSlash :
    (s : String) (slash : Char) (t : String)
    → code slash ≡ b'/'
    → HasSlash (append s (String.◌∷◌ slash t))
append-HasSlash String.[] slash t e = inl e
append-HasSlash (String.◌∷◌ c s) slash t e = inr (append-HasSlash s slash t e)

behind_equals-IsFree : (s : String) → IsFree b'=' s → behind_equals s ≡ none
unfolding behind_equals
behind_equals-IsFree String.[] h = refl
behind_equals-IsFree (String.◌∷◌ c s) (e, h) = rw (behind_equals-IsFree s h, e) refl

-- What is found behind an equals sign has the slash.
abbrev KeepsSlash : Option String → Type 0
KeepsSlash none = Unit
KeepsSlash (some part) = HasSlash part

behind_equals-step :
    (c : Char) (s : String) (found : Option String)
    → HasSlash s
    → KeepsSlash found
    → KeepsSlash (elim found [
      | some part ↦ some part
      | none ↦ if code c == b'=' && not (str_eq s "") then some s else none
    ])
behind_equals-step c s (some part) h k = k
behind_equals-step c s none h k = elim (Bool-cases (code c == b'=' && not (str_eq s ""))) [
  | inl e ↦ rw e h
  | inr e ↦ rw e tt
]

behind_equals-HasSlash :
    (s : String) (slash : Char) (t : String)
    → code slash ≡ b'/'
    → IsFree b'=' t
    → KeepsSlash (behind_equals (append s (String.◌∷◌ slash t)))
unfolding behind_equals
behind_equals-HasSlash String.[] slash t e free = rw (behind_equals-IsFree t free, e) tt
behind_equals-HasSlash (String.◌∷◌ c s) slash t e free =
    behind_equals-step c (append s (String.◌∷◌ slash t)) _ (append-HasSlash s slash t e)
      (behind_equals-HasSlash s slash t e free)

valid_part-found :
    (s : String) (found : Option String)
    → HasSlash s
    → KeepsSlash found
    → HasSlash (value_or s found)
valid_part-found s none h k = h
valid_part-found s (some part) h k = k

checked_lem :
    (part : String)
    → HasSlash part
    → (if str_eq part "" then err invalid_parameter else check_characters part)
      ≡ err invalid_parameter
checked_lem part h = elim (Bool-cases (str_eq part "")) [
  | inl e ↦ rw e refl
  | inr e ↦ rw e (check_characters-HasSlash part h)
]

-- A permission with a slash behind its last equals sign, as an access control item with its grantor has, is
-- always refused: the grantor is not taken off.
pub param_check_permission_refuses :
    (s : String) (slash : Char) (grantor : String)
    → code slash ≡ b'/'
    → IsFree b'=' grantor
    → param_check_permission (append s (String.◌∷◌ slash grantor)) ≡ err invalid_parameter
unfolding param_check_permission valid_part
param_check_permission_refuses s slash grantor e free =
    elim (Bool-cases (is_one_line (append s (String.◌∷◌ slash grantor)))) [
      | inl one ↦ rw one (
          checked_lem _ (
            without_spaces-HasSlash _ (
              valid_part-found (append s (String.◌∷◌ slash grantor)) _
                (append-HasSlash s slash grantor e)
                (behind_equals-HasSlash s slash grantor e free))))
      | inr several ↦ rw several refl
    ]
