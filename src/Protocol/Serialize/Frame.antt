-- ===== src/Protocol/Serialize/Frame.antt =====
-- protocol.rs: what goes on the wire for each message: its type byte, its length and its payload.
use kui_ba_db.Base.{
  ℕ, suc, ◌+◌, ◌-◌, ◌%◌, ◌^◌, ◌≡◌, refl, sym, ap, ◌∙◌, arith, List, [], ◌∷◌, ◌++◌, append_assoc,
  append-nil, Bytes, length, length-append, Option, none, some,
}
use kui_ba_db.Base.Int.{to_bits}
use kui_ba_db.Oids.{u32_from_opt_oid}
use kui_ba_db.Utils.Ser.{Endian, be_bytes}
use kui_ba_db.Utils.Ser.Order.{
  length-be_bytes, u32-network, u16-network, i32-network, i16-network, cstr-append, u32_at_ok,
}
use kui_ba_db.Protocol.Message.{
  Str, ErrFields, xact_status_u8, format_u16, FieldDesc, Message, error_response, authentication_ok,
  backend_key_data, ready_for_query, command_complete, parameter_status, empty_query_response,
  row_description, data_row,
}
use kui_ba_db.Protocol.Serialize.{
  push, as_i32, attnum_u16, write_field, set_msglen, serialize_errmsg, serialize_error_response,
  serialize_authentication_ok, serialize_backend_key_data, serialize_ready_for_query,
  serialize_command_complete, serialize_parameter_status, serialize_empty_query_response,
  write_field_desc, write_field_descs, serialize_row_description, write_column, write_columns,
  serialize_data_row, serialize,
}

-- A frame of the protocol: the length counts itself and the payload, and not the type byte.
abbrev pub frame : ℕ → Bytes → Bytes
frame typ body = typ ∷ (be_bytes 4 ((length body + 4) % 2 ^ 32) ++ body)

abbrev pub cstr : Str → Bytes
cstr s = s ++ 0 ∷ []

abbrev pub err_field : ℕ → Option Str → Bytes
err_field t none = []
err_field t (some v) = t ∷ cstr v

abbrev pub err_payload : ErrFields → Bytes
err_payload f =
    err_field b'S' f.severity ++ (err_field b'C' f.code ++ (err_field b'M' f.msg ++ 0 ∷ []))

abbrev pub field_payload : FieldDesc → Bytes
field_payload f =
    cstr f.name
    ++ (be_bytes 4 (u32_from_opt_oid f.reloid)
        ++ (be_bytes 2 (attnum_u16 f.attnum)
            ++ (be_bytes 4 f.typoid
                ++ (be_bytes 2 (to_bits (256 ^ 2) f.typlen)
                    ++ (be_bytes 4 (to_bits (256 ^ 4) f.typmod)
                        ++ be_bytes 2 (format_u16 f.format))))))

abbrev pub field_payloads : List FieldDesc → Bytes
field_payloads [] = []
field_payloads (f ∷ fs) = field_payload f ++ field_payloads fs

abbrev pub column_payload : Option Bytes → Bytes
column_payload none = be_bytes 4 (2 ^ 32 - 1)
column_payload (some v) = be_bytes 4 (length v % 2 ^ 32) ++ v

abbrev pub column_payloads : List (Option Bytes) → Bytes
column_payloads [] = []
column_payloads (c ∷ cs) = column_payload c ++ column_payloads cs

-- The type byte and the payload that the protocol gives each message.
abbrev pub msg_type : Message → ℕ
msg_type (error_response m) = b'E'
msg_type authentication_ok = b'R'
msg_type (backend_key_data m) = b'K'
msg_type (ready_for_query m) = b'Z'
msg_type (command_complete m) = b'C'
msg_type (parameter_status m) = b'S'
msg_type empty_query_response = b'I'
msg_type (row_description m) = b'T'
msg_type (data_row m) = b'D'

abbrev pub payload : Message → Bytes
payload (error_response m) = err_payload m.fields
payload authentication_ok = be_bytes 4 0
payload (backend_key_data m) = be_bytes 4 m.backendid ++ be_bytes 4 m.key
payload (ready_for_query m) = xact_status_u8 m.status ∷ []
payload (command_complete m) = cstr m.tag
payload (parameter_status m) = cstr m.name ++ cstr m.value
payload empty_query_response = []
payload (row_description m) = be_bytes 2 (length m.fields % 2 ^ 16) ++ field_payloads m.fields
payload (data_row m) = be_bytes 2 (length m.columns % 2 ^ 16) ++ column_payloads m.columns

-- `len as i32` keeps the low 32 bits.
as_i32-bits : (n : ℕ) → to_bits (2 ^ 32) (as_i32 n) ≡ n % 2 ^ 32
as_i32-bits n = ground arith

ruleset wire = (u32-network, u16-network, i32-network, i16-network, cstr-append, append_assoc)

write_field-append :
    (out : Bytes) (o : Option Str) (t : ℕ) → write_field out o t ≡ out ++ err_field t o
unfolding write_field
write_field-append out none t = sym (append-nil out)
write_field-append out (some v) t = simp wire

module _ (e : Endian) where
  -- Filling in the length of five type bytes and a body gives the frame.
  set_msglen-frame :
      (typ : ℕ) (body : Bytes)
      → set_msglen e (typ ∷ typ ∷ typ ∷ typ ∷ typ ∷ body) ≡ some (frame typ body)
  unfolding set_msglen
  set_msglen-frame typ body =
      let n : suc (suc (suc (suc (suc (length body))))) - 1 ≡ length body + 4 = omega arith in
      rw (u32_at_ok e (typ ∷ typ ∷ typ ∷ typ ∷ typ ∷ body) 1 _ (omega arith), n) refl

  write_field_descs-append :
      (fs : List FieldDesc) (out : Bytes) → write_field_descs e out fs ≡ out ++ field_payloads fs
  unfolding write_field_descs write_field_desc
  write_field_descs-append [] out = sym (append-nil out)
  write_field_descs-append (f ∷ fs) out = simp (write_field_descs-append fs, wire)

  column-append : (c : Option Bytes) (out : Bytes) → write_column e out c ≡ out ++ column_payload c
  unfolding write_column
  column-append none out = simp wire
  column-append (some v) out = simp wire (rw (as_i32-bits (length v)) refl)

  write_columns-append :
      (cs : List (Option Bytes)) (out : Bytes) → write_columns e out cs ≡ out ++ column_payloads cs
  unfolding write_columns
  write_columns-append [] out = sym (append-nil out)
  write_columns-append (c ∷ cs) out = simp (write_columns-append cs, column-append, append_assoc)

  errmsg-frame :
      (typ : ℕ) (f : ErrFields) (out : Bytes)
      → serialize_errmsg e typ f out ≡ some (frame typ (err_payload f))
  unfolding serialize_errmsg
  errmsg-frame typ f out = ap (set_msglen e) body ∙ set_msglen-frame typ (err_payload f)
    where
      head : Bytes
      head = typ ∷ typ ∷ typ ∷ typ ∷ typ ∷ []

      body :
          push
            (write_field (write_field (write_field head f.severity b'S') f.code b'C') f.msg b'M')
            0
          ≡ typ ∷ typ ∷ typ ∷ typ ∷ typ ∷ err_payload f
      body = simp (write_field-append, append_assoc)

  -- Whatever the buffer held and on either machine, serializing a message does not panic, and
  -- gives exactly the frame of the message's type byte and payload.
  pub serialize-frame :
      (m : Message) (buff : Bytes) → serialize e m buff ≡ some (frame (msg_type m) (payload m))
  unfolding serialize
  serialize-frame (error_response m) buff =
      unfold serialize_error_response in errmsg-frame b'E' m.fields buff
  serialize-frame authentication_ok buff =
      unfold serialize_authentication_ok in simp (wire, length-be_bytes)
  serialize-frame (backend_key_data m) buff =
      unfold serialize_backend_key_data in simp (wire, length-append, length-be_bytes)
  serialize-frame (ready_for_query m) buff = unfold serialize_ready_for_query in simp wire
  serialize-frame (command_complete m) buff =
      unfold serialize_command_complete in simp wire (set_msglen-frame b'C' _)
  serialize-frame (parameter_status m) buff =
      unfold serialize_parameter_status in simp wire (set_msglen-frame b'S' _)
  serialize-frame empty_query_response buff =
      unfold serialize_empty_query_response in simp (wire, append-nil)
  serialize-frame (row_description m) buff =
      unfold serialize_row_description in
      simp (write_field_descs-append, wire) (set_msglen-frame b'T' _)
  serialize-frame (data_row m) buff =
      unfold serialize_data_row in simp (write_columns-append, wire) (set_msglen-frame b'D' _)
