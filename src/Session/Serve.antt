-- ===== src/Session/Serve.antt =====
-- lib.rs: `do_postgres_main` and `postgres_main`.
pub mod Output
pub mod Script
pub mod Greeting
pub mod Conversation
pub mod Loaded
pub mod Ends
use kui_ba_db.Base.{
  ℕ, zero, suc, Bytes, List, [], ◌∷◌, ◌++◌, Bool, true, false, not, ◌||◌, Option, none, some,
  Outcome, ok, err, panic, length, if◌then◌else◌, ◌==◌,
}
use kui_ba_db.Base.Int.{ℤ, pos, negsuc}
use kui_ba_db.Base.Text.{codes, debug_bytes, show_ℤ}
use kui_ba_db.Base.Assoc.{Assoc}
use kui_ba_db.Common.{Float}
use kui_ba_db.Guc.{Str, GucIdx, GucState, GucTables, get_str}
use kui_ba_db.Guc.Gucdef.{client_encoding}
use kui_ba_db.Utils.Ser.{Endian}
use kui_ba_db.Utils.Err.{IoError, AnyError, Fallible, errctx, kbanyhow, with_context}
use kui_ba_db.Protocol.Errcodes.{errcode_protocol_violation, errcode_connection_failure}
use kui_ba_db.Protocol.Message.{XactStatus, authentication_ok, backend_key_data, ready_for_query}
use kui_ba_db.Protocol.Read.{InStream, IoResult, read_message, read_startup_message}
use kui_ba_db.Protocol.Startup.{
  CancelRequest, StartupMessage, deserialize_cancel_request, deserialize_ssl_request,
  deserialize_startup, check_client_encoding, deserialize_query,
}
use kui_ba_db.Session.{
  Sock, Io, after, ◌>>=◌, ◌>>◌, lift, from_io, flush, write_all, write_message, write_cmd_complete,
  severity_fatal, ignore, on_error, report_all_gucs,
}

-- The read moves the input on; a failed one leaves nothing that is read again.
pub took : {A : Type 0} → IoResult (A × InStream) → Io A
took (ok (a, rest)) s = (ok a, record s { input = rest })
took (err e) s = (from_io (err e), s)
took panic s = (panic, s)

pub receive_startup : Io Bytes
receive_startup s = took (read_startup_message s.input) s

-- `read_message(…).await.with_context(…)`
pub receive : Io (ℤ × Bytes)
receive s =
    let (r, s') = took (read_message s.input) s in
    (with_context (errctx errcode_connection_failure (codes "read_message failed")) r, s')

-- `kbensure!`
pub ensure : Bool → AnyError → Io (Unit {0})
ensure true e s = (ok tt, s)
ensure false e s = (err e, s)

eq_ℤ : ℤ → ℤ → Bool
eq_ℤ (pos m) (pos n) = m == n
eq_ℤ (negsuc m) (negsuc n) = m == n
eq_ℤ _ _ = false

-- `MsgType`
abbrev pub msg_query : ℤ
msg_query = pos b'Q'

abbrev pub msg_terminate : ℤ
msg_terminate = pos b'X'

abbrev pub msg_eof : ℤ
msg_eof = negsuc 0

nossl : Bytes
nossl = b'N' ∷ []

-- `Some(req)`: `todo!()`
pub no_cancel : Option CancelRequest → Io (Unit {0})
no_cancel none s = (ok tt, s)
no_cancel (some req) s = (panic, s)

pub after_ssl : Option (Unit {0}) → Bytes → Io Bytes
after_ssl none inmsgbuf = lift (ok inmsgbuf)
after_ssl (some _) inmsgbuf = do write_all nossl; flush; receive_startup

-- The expected encoding; the index is inside the array.
pub expected_encoding : Option Str → Fallible Str
expected_encoding none = panic
expected_encoding (some enc) = ok enc

-- What a round's result leaves of the loop, whose further rounds give `next`.
pub until :
    Fallible Bool × Sock → Option (Fallible (Unit {0}) × Sock) → Option (Fallible (Unit {0}) × Sock)
until (ok true, s) next = next
until (ok false, s) next = some (ok tt, s)
until (err error, s) next = some (err error, s)
until (panic, s) next = some (panic, s)

module _ (f : Float) (tables : GucTables f.Real) (e : Endian) where
  -- What a round of the loop does with a message: `true` to go on.
  pub handle_query : Bytes → Io Bool
  handle_query body = do
    query ← lift (
        with_context
          (errctx errcode_protocol_violation
            (codes "unexpected query msg. msg=" ++ debug_bytes body))
          (deserialize_query body))
    write_cmd_complete e (codes "HELLOWORLD")
    lift (ok true)

  pub handle_message : ℤ → Bytes → Io Bool
  handle_message msgtype body =
      if eq_ℤ msgtype msg_eof || eq_ℤ msgtype msg_terminate then lift (ok false) else (do
        ensure (eq_ℤ msgtype msg_query) (
            kbanyhow errcode_protocol_violation
              (codes "unexpected msg. expected=Q actual=" ++ show_ℤ msgtype))
        handle_query body)

  pub round : Io Bool
  round = do
    write_message e (ready_for_query (record { status = XactStatus.not_in_block }))
    flush
    m ← receive
    handle_message m.0 m.1

  -- The `loop`; `none` means that the fuel ran out.
  pub rounds : ℕ → Sock → Option (Fallible (Unit {0}) × Sock)
  rounds zero s = none
  rounds (suc fuel) s = until (round s) (rounds fuel (round s).1)

  -- Everything before the loop. The backend's id and key are 0.
  pub greet : Assoc GucIdx → GucState f.Real → StartupMessage → Io (Unit {0})
  greet order gucstate startup = do
    expected ← lift (expected_encoding (get_str gucstate client_encoding))
    ensure (check_client_encoding startup expected) (
        kbanyhow errcode_protocol_violation
          (codes "Unsupported client encoding. expected=" ++ expected))
    write_message e authentication_ok
    report_all_gucs f tables e order gucstate
    write_message e (backend_key_data (record { backendid = 0; key = 0 }))

  pub accept : Assoc GucIdx → GucState f.Real → Io (Unit {0})
  accept order gucstate = do
    first ← receive_startup
    no_cancel (deserialize_cancel_request first)
    inmsgbuf ← after_ssl (deserialize_ssl_request first) first
    startup ← lift (
        with_context
          (errctx errcode_protocol_violation
            (codes "unexpected startup msg. msg=" ++ debug_bytes inmsgbuf))
          (deserialize_startup inmsgbuf))
    greet order gucstate startup

  pub run_rounds : ℕ → Fallible (Unit {0}) × Sock → Option (Fallible (Unit {0}) × Sock)
  run_rounds fuel (ok _, s) = rounds fuel s
  run_rounds fuel (err error, s) = some (err error, s)
  run_rounds fuel (panic, s) = some (panic, s)

  -- Each round takes a byte of the input at least.
  pub do_postgres_main : Assoc GucIdx → GucState f.Real → Sock → Option (Fallible (Unit {0}) × Sock)
  do_postgres_main order gucstate s =
      run_rounds (suc (length s.input.avail)) (accept order gucstate s)

  -- What `postgres_main` does with the result: an error is reported, and the last flush's error
  -- is ignored.
  pub finish_session : (Bytes → Bytes) → Fallible (Unit {0}) × Sock → Fallible (Unit {0}) × Sock
  finish_session utf8_text (ok _, s) = ignore (flush s)
  finish_session utf8_text (err error, s) =
      (do on_error utf8_text e severity_fatal error; λ s'. ignore (flush s')) s
  finish_session utf8_text (panic, s) = (panic, s)

  pub finish_all :
      (Bytes → Bytes) → Option (Fallible (Unit {0}) × Sock) → Option (Fallible (Unit {0}) × Sock)
  finish_all utf8_text none = none
  finish_all utf8_text (some r) = some (finish_session utf8_text r)

  pub postgres_main :
      (Bytes → Bytes) → Assoc GucIdx → GucState f.Real → Sock → Option (Fallible (Unit {0}) × Sock)
  postgres_main utf8_text order gucstate s =
      finish_all utf8_text (do_postgres_main order gucstate s)
