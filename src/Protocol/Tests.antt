-- ===== src/Protocol/Tests.antt =====
-- Messages of the protocol on concrete bytes.
use kui_ba_db.Base.{
  ◌≡◌, refl, arith, ◌⊎◌, Bytes, IsByte, All, List, [], ◌∷◌, ◌++◌, none, some, ok, true, false,
}
use mathlib.Core.Logic.{◌↔◌}
use kui_ba_db.Base.Int.{pos}
use kui_ba_db.Base.Text.{codes, is_utf8}
use kui_ba_db.Base.Assoc.{lookup, insert}
use kui_ba_db.Utils.Ser.{Endian, be_bytes}
use kui_ba_db.Utils.Err.{IoError}
use kui_ba_db.Protocol.Message.{Str, Message, data_row}
use kui_ba_db.Protocol.Serialize.{serialize}
use kui_ba_db.Protocol.Serialize.Frame.{frame, msg_type, payload, serialize-frame}
use kui_ba_db.Protocol.Read.{read_message}
use kui_ba_db.Protocol.Read.Frames.{holding, read_message-frame, BodyOutcome, read_body_cases}
use kui_ba_db.Protocol.Startup.{
  CancelRequest, is_empty, deserialize_cancel_request, deserialize_ssl_request, deserialize_startup,
  deserialize_query,
}
use kui_ba_db.Protocol.Startup.Cstr.{Refuses}
use kui_ba_db.Protocol.Startup.Total.{
  encode_params, IsParam, StartupOutcome, deserialize_startup_cases,
}
use kui_ba_db.Protocol.Startup.RoundTrip.{
  deserialize_startup-encode_params, deserialize_startup_no_user,
}
use kui_ba_db.Protocol.Startup.Requests.{
  cancel_bytes, ssl_bytes, cancel_request_iff, ssl_request_iff, deserialize_query_cases,
}

abbrev row : Message
row = data_row (record { columns = some (codes "1") ∷ none ∷ [] })

abbrev lost : IoError
lost = record { text = codes "unexpected end of file" }

serialize-frame_example :
    serialize Endian.little row (codes "old") ≡ some (frame (msg_type row) (payload row))
serialize-frame_example = serialize-frame Endian.little row (codes "old")

read_message-frame_example :
    read_message (holding lost (frame b'Q' (codes "select 1") ++ codes "rest"))
    ≡ ok ((pos b'Q', codes "select 1"), holding lost (codes "rest"))
read_message-frame_example =
    read_message-frame lost b'Q' (codes "select 1") (codes "rest") (omega arith) (omega arith)

read_body_cases_example : BodyOutcome lost (0 ∷ 0 ∷ 0 ∷ 3 ∷ [])
read_body_cases_example = read_body_cases lost (0 ∷ 0 ∷ 0 ∷ 3 ∷ []) (omega arith)

abbrev version : Bytes
version = 0 ∷ 3 ∷ 0 ∷ 0 ∷ []

abbrev user_param : List (Str × Str)
user_param = (codes "user", codes "ada") ∷ []

abbrev database_param : List (Str × Str)
database_param = (codes "database", codes "kuiba") ∷ []

user_param-IsParam : All IsParam user_param
unfolding is_utf8 is_empty
user_param-IsParam = (((omega arith, refl), refl, (omega arith, refl)), tt)

database_param-IsParam : All IsParam database_param
unfolding is_utf8 is_empty
database_param-IsParam = (((omega arith, refl), refl, (omega arith, refl)), tt)

deserialize_startup_cases_example : StartupOutcome (version ++ encode_params user_param)
deserialize_startup_cases_example = deserialize_startup_cases (version ++ encode_params user_param)

deserialize_startup-encode_params_example :
    deserialize_startup (version ++ (encode_params user_param ++ []))
    ≡ ok (record {
      major_ver = 3;
      minor_ver = 0;
      username = codes "ada";
      params = (codes "user", codes "ada") ∷ [];
    })
unfolding lookup insert
deserialize_startup-encode_params_example =
    deserialize_startup-encode_params 0 3 0 0 user_param [] user_param-IsParam (codes "ada") refl

deserialize_startup_no_user_example :
    Refuses (deserialize_startup (version ++ (encode_params database_param ++ [])))
unfolding lookup insert
deserialize_startup_no_user_example =
    deserialize_startup_no_user 0 3 0 0 database_param [] database_param-IsParam refl

abbrev cancel : CancelRequest
cancel = record { sess = 7; key = 99 }

cancel-IsByte : All IsByte (cancel_bytes cancel)
unfolding be_bytes
cancel-IsByte = omega arith

cancel_request_iff_example :
    (deserialize_cancel_request (cancel_bytes cancel) ≡ some cancel)
    ↔ (cancel_bytes cancel ≡ cancel_bytes cancel)
cancel_request_iff_example =
    cancel_request_iff (cancel_bytes cancel) cancel cancel-IsByte (omega arith) (omega arith)

ssl_request_iff_example :
    ((deserialize_ssl_request (codes "abc") ≡ some tt) ↔ (codes "abc" ≡ ssl_bytes))
    × (deserialize_cancel_request ssl_bytes ≡ none)
    × Refuses (deserialize_startup ssl_bytes)
ssl_request_iff_example = ssl_request_iff (codes "abc")

deserialize_query_cases_example :
    Refuses (deserialize_query [])
    × (((is_utf8 (codes "select 1") ≡ true)
          × (deserialize_query (codes "select 1" ++ 0 ∷ []) ≡ ok (codes "select 1")))
        ⊎ ((is_utf8 (codes "select 1") ≡ false)
            × Refuses (deserialize_query (codes "select 1" ++ 0 ∷ []))))
deserialize_query_cases_example = deserialize_query_cases (codes "select 1") 0
