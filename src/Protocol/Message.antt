-- ===== src/Protocol/Message.antt =====
-- protocol.rs: the messages that the server sends. A `&str` is the list of its UTF-8 bytes.
use kui_ba_db.Base.{ℕ, Bytes, List, Option, none, some}
use kui_ba_db.Base.Int.{ℤ}
use kui_ba_db.Oids.{Oid, OptOid}

abbrev pub Str : Type 0
Str = Bytes

-- ErrFields: the fields that are not commented out.
pub record ErrFields : Type 0 where
  pub severity : Option Str
  pub code : Option Str
  pub msg : Option Str

pub record ErrorResponse : Type 0 where
  pub fields : ErrFields

-- ErrorResponse::new
abbrev pub new_error_response : Str → Str → Str → ErrorResponse
new_error_response severity code msg = record {
  fields = record { severity = some severity; code = some code; msg = some msg };
}

pub record BackendKeyData : Type 0 where
  pub backendid : ℕ
  pub key : ℕ

pub data XactStatus : Type 0 where
  not_in_block in_block failed : XactStatus

-- `status as u8`
abbrev pub xact_status_u8 : XactStatus → ℕ
xact_status_u8 XactStatus.not_in_block = b'I'
xact_status_u8 XactStatus.in_block = b'T'
xact_status_u8 XactStatus.failed = b'E'

pub record ReadyForQuery : Type 0 where
  pub status : XactStatus

pub record CommandComplete : Type 0 where
  pub tag : Str

pub record ParameterStatus : Type 0 where
  pub name : Str
  pub value : Str

pub data Format : Type 0 where
  text : Format

-- `format as u16`
abbrev pub format_u16 : Format → ℕ
format_u16 Format.text = 0

pub record FieldDesc : Type 0 where
  pub name : Str
  pub reloid : OptOid
  pub typoid : Oid
  pub typmod : ℤ
  pub attnum : Option ℕ
  pub typlen : ℤ
  pub format : Format

-- FieldDesc::new
abbrev pub new_field_desc : Str → Oid → ℤ → ℤ → FieldDesc
new_field_desc name typoid typmod typlen = record {
  name = name;
  reloid = none;
  typoid = typoid;
  typmod = typmod;
  attnum = none;
  typlen = typlen;
  format = Format.text;
}

pub record RowDescription : Type 0 where
  pub fields : List FieldDesc

pub record DataRow : Type 0 where
  pub columns : List (Option Bytes)

-- The types that implement the trait `Message`.
pub data Message : Type 0 where
  error_response : ErrorResponse → Message
  authentication_ok : Message
  backend_key_data : BackendKeyData → Message
  ready_for_query : ReadyForQuery → Message
  command_complete : CommandComplete → Message
  parameter_status : ParameterStatus → Message
  empty_query_response : Message
  row_description : RowDescription → Message
  data_row : DataRow → Message
