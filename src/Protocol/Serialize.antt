-- ===== src/Protocol/Serialize.antt =====
-- protocol.rs: `Message::serialize` of each message. `none` is a panic. `buff` is the buffer that
-- the connection reuses; `reserve` changes its capacity only and is left out.
pub mod Frame
use kui_ba_db.Base.{
  ℕ, zero, suc, ◌+◌, ◌-◌, ◌%◌, ◌^◌, List, [], ◌∷◌, ◌++◌, Bytes, length, take, replicate, Option,
  none, some,
}
use kui_ba_db.Base.Int.{ℤ, pos, negsuc, of_bits}
use kui_ba_db.Oids.{u32_from_opt_oid}
use kui_ba_db.Utils.Ser.{
  Endian, ser_cstr, ser_be_u32, ser_be_u16, ser_be_i32, ser_be_i16, ser_be_u32_at,
}
use kui_ba_db.Protocol.Message.{
  Str, ErrFields, ErrorResponse, BackendKeyData, xact_status_u8, ReadyForQuery, CommandComplete,
  ParameterStatus, format_u16, FieldDesc, RowDescription, DataRow, Message, error_response,
  authentication_ok, backend_key_data, ready_for_query, command_complete, parameter_status,
  empty_query_response, row_description, data_row,
}

-- `Vec::clear`, `Vec::push` and `Vec::resize`.
abbrev pub clear : Bytes → Bytes
clear out = []

abbrev pub push : Bytes → ℕ → Bytes
push out b = out ++ b ∷ []

abbrev pub resize : Bytes → ℕ → ℕ → Bytes
resize out n b = take n out ++ replicate (n - length out) b

-- `len as i32`
abbrev pub as_i32 : ℕ → ℤ
as_i32 n = of_bits (2 ^ 32) (n % 2 ^ 32)

-- The macro `write_field!`
write_field : Bytes → Option Str → ℕ → Bytes
write_field out none fieldtype = out
write_field out (some v) fieldtype = ser_cstr (push out fieldtype) v

-- The `match field.attnum`.
pub attnum_u16 : Option ℕ → ℕ
attnum_u16 none = 0
attnum_u16 (some v) = v

module _ (e : Endian) where
  -- `let msglen = out.len() - 1; ser::ser_be_u32_at(out, 1, msglen as u32);`
  set_msglen : Bytes → Option Bytes
  set_msglen out = let msglen = length out - 1 in ser_be_u32_at e out 1 (msglen % 2 ^ 32)

  serialize_errmsg : ℕ → ErrFields → Bytes → Option Bytes
  unfolding write_field set_msglen
  serialize_errmsg typ fields out =
      let out = resize (clear out) 5 typ in
      let out = write_field out fields.severity b'S' in
      let out = write_field out fields.code b'C' in
      let out = write_field out fields.msg b'M' in let out = push out 0 in set_msglen out

  serialize_error_response : ErrorResponse → Bytes → Option Bytes
  unfolding serialize_errmsg
  serialize_error_response m buff = serialize_errmsg b'E' m.fields buff

  serialize_authentication_ok : Bytes → Option Bytes
  serialize_authentication_ok out =
      let out = push (clear out) b'R' in let out = ser_be_u32 e out 8 in some (ser_be_u32 e out 0)

  serialize_backend_key_data : BackendKeyData → Bytes → Option Bytes
  serialize_backend_key_data m buff =
      let buff = push (clear buff) b'K' in
      let buff = ser_be_u32 e buff 12 in
      let buff = ser_be_u32 e buff m.backendid in some (ser_be_u32 e buff m.key)

  serialize_ready_for_query : ReadyForQuery → Bytes → Option Bytes
  serialize_ready_for_query m buff =
      let buff = push (clear buff) b'Z' in
      let buff = ser_be_u32 e buff 5 in some (push buff (xact_status_u8 m.status))

  serialize_command_complete : CommandComplete → Bytes → Option Bytes
  unfolding set_msglen
  serialize_command_complete m buff =
      let buff = resize (clear buff) 5 b'C' in let buff = ser_cstr buff m.tag in set_msglen buff

  serialize_parameter_status : ParameterStatus → Bytes → Option Bytes
  unfolding set_msglen
  serialize_parameter_status m buff =
      let buff = resize (clear buff) 5 b'S' in
      let buff = ser_cstr buff m.name in let buff = ser_cstr buff m.value in set_msglen buff

  serialize_empty_query_response : Bytes → Option Bytes
  serialize_empty_query_response buff = some (ser_be_u32 e (push (clear buff) b'I') 4)

  -- One round of the loop over the fields, and the loop.
  write_field_desc : Bytes → FieldDesc → Bytes
  unfolding attnum_u16 u32_from_opt_oid
  write_field_desc buff field =
      let attnum = attnum_u16 field.attnum in
      let buff = ser_cstr buff field.name in
      let buff = ser_be_u32 e buff (u32_from_opt_oid field.reloid) in
      let buff = ser_be_u16 e buff attnum in
      let buff = ser_be_u32 e buff field.typoid in
      let buff = ser_be_i16 e buff field.typlen in
      let buff = ser_be_i32 e buff field.typmod in ser_be_u16 e buff (format_u16 field.format)

  write_field_descs : Bytes → List FieldDesc → Bytes
  unfolding write_field_desc
  write_field_descs buff [] = buff
  write_field_descs buff (f ∷ fs) = write_field_descs (write_field_desc buff f) fs

  serialize_row_description : RowDescription → Bytes → Option Bytes
  unfolding write_field_descs set_msglen
  serialize_row_description m buff =
      let buff = resize (clear buff) 5 b'T' in
      let buff = ser_be_u16 e buff (length m.fields % 2 ^ 16) in
      let buff = write_field_descs buff m.fields in set_msglen buff

  write_column : Bytes → Option Bytes → Bytes
  write_column buff none = ser_be_i32 e buff (negsuc 0)
  write_column buff (some dataval) = ser_be_i32 e buff (as_i32 (length dataval)) ++ dataval

  write_columns : Bytes → List (Option Bytes) → Bytes
  unfolding write_column
  write_columns buff [] = buff
  write_columns buff (c ∷ cs) = write_columns (write_column buff c) cs

  serialize_data_row : DataRow → Bytes → Option Bytes
  unfolding write_columns set_msglen
  serialize_data_row m buff =
      let buff = resize (clear buff) 5 b'D' in
      let buff = ser_be_u16 e buff (length m.columns % 2 ^ 16) in
      let buff = write_columns buff m.columns in set_msglen buff

  -- The trait's method.
  pub serialize : Message → Bytes → Option Bytes
  serialize (error_response m) buff = serialize_error_response m buff
  serialize authentication_ok buff = serialize_authentication_ok buff
  serialize (backend_key_data m) buff = serialize_backend_key_data m buff
  serialize (ready_for_query m) buff = serialize_ready_for_query m buff
  serialize (command_complete m) buff = serialize_command_complete m buff
  serialize (parameter_status m) buff = serialize_parameter_status m buff
  serialize empty_query_response buff = serialize_empty_query_response buff
  serialize (row_description m) buff = serialize_row_description m buff
  serialize (data_row m) buff = serialize_data_row m buff
