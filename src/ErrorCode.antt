-- ===== src/ErrorCode.antt =====
-- `ErrorCode` of include/manager/metadata/error_code.h. The success value `OK` is the constructor
-- `ok` of `Outcome` (Action.antt), which carries the out parameters.
pub data ErrorCode : Type 0 where
  not_found id_not_found name_not_found end_of_row already_exists not_supported : ErrorCode
  unknown invalid_parameter insufficient_parameters database_access_failure : ErrorCode
  not_initialized result_multiple_rows internal_error : ErrorCode
