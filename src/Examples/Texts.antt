-- ===== src/Examples/Texts.antt =====
-- The theorems on texts and numbers at concrete inputs.
use metadata_manager.Prelude.{pos, negsuc, ◌≡◌, ◌⊎◌, All, refl, arith, to_string}
use metadata_manager.ErrorCode.{invalid_parameter, internal_error}
use metadata_manager.Outcome.{ok, err}
use metadata_manager.Tables.Permission.{param_check_permission}
use metadata_manager.Tables.Permission.Grantor.{param_check_permission_refuses}
use metadata_manager.Utility.{str_to_int64, split}
use metadata_manager.Utility.Numeric.{str_to_int64-to_string, str_to_int64_overflow}
use metadata_manager.Utility.Pieces.{IsFree, joined, split_lem}

str_to_int64-to_string_example : str_to_int64 (to_string (negsuc 41)) ≡ ok (negsuc 41)
str_to_int64-to_string_example = str_to_int64-to_string (negsuc 41) (ground arith)

str_to_int64_overflow_example :
    str_to_int64 (to_string (pos 9223372036854775808)) ≡ err internal_error
str_to_int64_overflow_example = str_to_int64_overflow (pos 9223372036854775808) (λ h. ground arith)

split_lem_example :
    All (IsFree 44) (split 44 "1,2,\03")
    × ((joined "," (split 44 "1,2,\03") "" ≡ "1,2,")
        ⊎ (joined "," (split 44 "1,2,\03") "," ≡ "1,2,"))
split_lem_example = split_lem "," "1,2," "\03" (refl, (refl, (refl, (refl, tt)))) refl

accepted : param_check_permission "user=r w" ≡ ok tt
unfolding param_check_permission
accepted = refl

refused : param_check_permission "user=rw/owner" ≡ err invalid_parameter
unfolding param_check_permission
refused = refl

not_behind : param_check_permission "r=" ≡ err invalid_parameter
unfolding param_check_permission
not_behind = refl

param_check_permission_refuses_example :
    param_check_permission "user=rw/owner" ≡ err invalid_parameter
param_check_permission_refuses_example =
    param_check_permission_refuses "user=rw" "/" "owner" refl
      (refl, (refl, (refl, (refl, (refl, tt)))))
