-- ===== src/Protocol/Startup.antt =====
-- protocol.rs: what the client sends: `CancelRequest`, `SSLRequest`, `StartupMessage` and `Query`.
pub mod Requests
pub mod Cstr
pub mod Total
pub mod RoundTrip
pub mod Opening
use kui_ba_db.Base.{
  ℕ, zero, suc, ◌+◌, ◌-◌, List, [], ◌∷◌, ◌++◌, Bytes, length, take, drop, Option, none, some, Bool,
  true, false, not, ◌||◌, Outcome, ok, err, panic, ◌>>=◌, leb, ◌==◌, eq_bytes, if◌then◌else◌,
}
use kui_ba_db.Base.Int.{ℤ, pos, negsuc}
use kui_ba_db.Base.Text.{codes, from_utf8, eq_ignore_ascii_case}
use kui_ba_db.Base.Assoc.{Assoc, lookup, insert}
use kui_ba_db.Utils.Ser.{from_be_bytes, from_le_bytes}
use kui_ba_db.Utils.Err.{AnyError, Cause, Fallible, errctx, kbanyhow, with_context}
use kui_ba_db.Protocol.Errcodes.{errcode_protocol_violation}
use kui_ba_db.Protocol.Message.{Str}

pub record CancelRequest : Type 0 where
  pub sess : ℕ
  pub key : ℕ

abbrev pub cancel_code : Bytes
cancel_code = 0x04 ∷ 0xd2 ∷ 0x16 ∷ 0x2e ∷ []

abbrev pub ssl_code : Bytes
ssl_code = 0x04 ∷ 0xd2 ∷ 0x16 ∷ 0x2f ∷ []

-- CancelRequest::deserialize
pub deserialize_cancel_request : Bytes → Option CancelRequest
deserialize_cancel_request d =
    if not (length d == 12) || not (eq_bytes (take 4 d) cancel_code)
    then none
    else some (record {
      sess = from_be_bytes (take 4 (drop 4 d));
      key = from_be_bytes (take 4 (drop 8 d));
    })

-- SSLRequest::deserialize: whether the message is an `SSLRequest`.
pub deserialize_ssl_request : Bytes → Option (Unit {0})
deserialize_ssl_request d = if not (eq_bytes d ssl_code) then none else some tt

abbrev pub startup_user_param : Str
startup_user_param = codes "user"

abbrev startup_database_param : Str
startup_database_param = codes "database"

abbrev startup_client_encoding : Str
startup_client_encoding = codes "client_encoding"

pub record StartupMessage : Type 0 where
  pub major_ver : ℕ
  pub minor_ver : ℕ
  pub username : Str
  pub params : Assoc Str

-- `Iterator::position` of a byte.
position : ℕ → Bytes → Option ℕ
position val [] = none
position val (v ∷ vs) =
    if v == val then some 0 else elim (position val vs) [ none ↦ none | some i ↦ some (suc i) ]

-- `none` is the panic of the slice `d[start..]`.
find : Bytes → ℕ → ℕ → Option ℤ
find d start val =
    if leb start (length d)
    then some
        (elim (position val (drop start d)) [ none ↦ negsuc 0 | some idx ↦ pos (idx + start) ])
    else none

pub record Cursor : Type 0 where
  pub bytes : Bytes
  pub position : ℕ

-- The `from_utf8(…).with_context(…)` of `read_cstr` and of `Query::deserialize`.
pub checked_utf8 : Bytes → Bytes → Fallible Str
checked_utf8 d msg = with_context (errctx errcode_protocol_violation msg) (elim (from_utf8 d) [
  | none ↦ err (record { contexts = []; cause = Cause.utf8 d })
  | some s ↦ ok s
])

read_cstr_at : Cursor → Option ℤ → Fallible (Str × Cursor)
read_cstr_at cursor none = panic
read_cstr_at cursor (some (negsuc n)) =
    err (kbanyhow errcode_protocol_violation (codes "invalid string in message"))
read_cstr_at cursor (some (pos idx)) =
    let cstrdata = take (idx - cursor.position) (drop cursor.position cursor.bytes) in
    do
      retstr ← checked_utf8 cstrdata (codes "invalid UTF-8 string in message")
      ok (retstr, record cursor { position = idx + 1 })

pub read_cstr : Cursor → Fallible (Str × Cursor)
read_cstr cursor = read_cstr_at cursor (find cursor.bytes cursor.position 0)

unfoldable pub is_empty : Bytes → Bool
is_empty [] = true
is_empty (b ∷ bs) = false

-- The `loop` over the parameters. Running out of fuel is a panic here.
pub read_params : ℕ → Cursor → Assoc Str → Fallible (Assoc Str)
read_params zero cursor params = panic
read_params (suc fuel) cursor params = do
  (name, cursor) ← read_cstr cursor
  let more = (do (val, cursor) ← read_cstr cursor; read_params fuel cursor (insert name val params))
  if is_empty name then ok params else more

-- `Option::ok_or_else`
ok_or_else {ℓ} : {A : Type ℓ} → Option A → AnyError → Fallible A
ok_or_else none e = err e
ok_or_else (some a) e = ok a

-- StartupMessage::deserialize. Each round of the loop takes a byte at least.
pub deserialize_startup : Bytes → Fallible StartupMessage
deserialize_startup (d0 ∷ d1 ∷ d2 ∷ d3 ∷ d) = do
  params ← read_params (suc (length d)) (record { bytes = d; position = 0 }) []
  user ←
      ok_or_else (lookup startup_user_param params)
        (kbanyhow errcode_protocol_violation (codes "StartupMessage: no user key"))
  ok (record {
    major_ver = from_le_bytes (d1 ∷ d0 ∷ []);
    minor_ver = from_le_bytes (d3 ∷ d2 ∷ []);
    username = user;
    params = params;
  })
deserialize_startup _ = err (kbanyhow errcode_protocol_violation (codes "invalid StartupMessage"))

-- StartupMessage::database
pub database : StartupMessage → Str
database m = elim (lookup startup_database_param m.params) [ none ↦ m.username | some v ↦ v ]

-- StartupMessage::check_client_encoding
unfoldable pub check_client_encoding : StartupMessage → Str → Bool
check_client_encoding m expected = elim (lookup startup_client_encoding m.params) [
  | none ↦ true
  | some v ↦ eq_ignore_ascii_case v expected
]

-- Query::deserialize: the last byte is dropped, whatever it is.
pub deserialize_query : Bytes → Fallible Str
deserialize_query [] = err (kbanyhow errcode_protocol_violation (codes "Query string is empty"))
deserialize_query (b ∷ d) =
    checked_utf8 (take (length (b ∷ d) - 1) (b ∷ d)) (codes "Query string is not UTF-8")
