-- ===== src/Protocol/Errcodes.antt =====
-- protocol/errcodes.rs: the SQLSTATE codes that the server reports.
use kui_ba_db.Base.{Bytes}
use kui_ba_db.Base.Text.{codes}

abbrev pub errcode_connection_failure : Bytes
errcode_connection_failure = codes "08006"

abbrev pub errcode_protocol_violation : Bytes
errcode_protocol_violation = codes "08P01"

abbrev pub errcode_internal_error : Bytes
errcode_internal_error = codes "XX000"

abbrev pub errcode_undefined_function : Bytes
errcode_undefined_function = codes "42883"

abbrev pub errcode_undefined_database : Bytes
errcode_undefined_database = codes "3D000"

abbrev pub errcode_admin_shutdown : Bytes
errcode_admin_shutdown = codes "57P01"

abbrev pub errcode_syntax_error : Bytes
errcode_syntax_error = codes "42601"

abbrev pub errcode_feature_not_supported : Bytes
errcode_feature_not_supported = codes "0A000"

abbrev pub errcode_undefined_schema : Bytes
errcode_undefined_schema = codes "3F000"

abbrev pub errcode_undefined_object : Bytes
errcode_undefined_object = codes "42704"

abbrev pub errcode_invalid_parameter_value : Bytes
errcode_invalid_parameter_value = codes "22023"

abbrev pub errcode_numeric_value_out_of_range : Bytes
errcode_numeric_value_out_of_range = codes "22003"

abbrev pub errcode_division_by_zero : Bytes
errcode_division_by_zero = codes "22012"

abbrev pub errcode_in_failed_sql_transaction : Bytes
errcode_in_failed_sql_transaction = codes "25P02"

abbrev pub errcode_active_sql_transaction : Bytes
errcode_active_sql_transaction = codes "25001"

abbrev pub errcode_no_active_sql_transaction : Bytes
errcode_no_active_sql_transaction = codes "25P01"

abbrev pub errcode_undefined_table : Bytes
errcode_undefined_table = codes "42P01"

abbrev pub errcode_bad_copy_file_format : Bytes
errcode_bad_copy_file_format = codes "22P04"

abbrev pub errcode_not_null_violation : Bytes
errcode_not_null_violation = codes "23502"
