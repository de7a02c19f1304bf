-- ===== src/Session.antt =====
-- The connection of a client: lib.rs (`Sock`, `write_cmd_complete`, `on_error`) and protocol.rs
-- (`write_message`, `report_guc`, `report_all_gucs`).
pub mod Serve
mod Tests
use kui_ba_db.Base.{
  ℕ, Bytes, List, [], ◌∷◌, ◌++◌, Bool, true, false, not, Option, none, some, Outcome, ok, err,
  panic, if◌then◌else◌,
}
use kui_ba_db.Base.Text.{codes}
use kui_ba_db.Base.Assoc.{Assoc}
use kui_ba_db.Common.{Float}
use kui_ba_db.Guc.{Str, GucIdx, GucState, Generic, GucTables, should_report, get_guc_generic}
use kui_ba_db.Guc.Show.{show}
use kui_ba_db.Utils.Ser.{Endian}
use kui_ba_db.Utils.Err.{IoError, AnyError, Cause, Fallible, errcode, display_error}
use kui_ba_db.Protocol.Message.{
  Message, error_response, parameter_status, command_complete, new_error_response,
}
use kui_ba_db.Protocol.Serialize.{serialize}
use kui_ba_db.Protocol.Read.{InStream, IoResult}

-- The connection: what the client sends, what was written to it, the buffer that messages are
-- serialized to, and how the coming flushes end (the ones behind the list succeed).
pub record Sock : Type 0 where
  pub input : InStream
  pub written : Bytes
  pub serbuf : Bytes
  pub flushes : List (Option IoError)

-- A step on the connection returns, fails or panics, and leaves the connection.
abbrev pub Io : Type 0 → Type 0
Io A = Sock → Fallible A × Sock

infixl 5 ◌>>=◌ ◌>>◌
pub after : {A B : Type 0} → Fallible A → Sock → (A → Io B) → Fallible B × Sock
after (ok a) s f = f a s
after (err e) s f = (err e, s)
after panic s f = (panic, s)

abbrev pub ◌>>=◌ : {A B : Type 0} → Io A → (A → Io B) → Io B
◌>>=◌ m f s = after (m s).0 (m s).1 f

abbrev pub ◌>>◌ : {B : Type 0} → Io (Unit {0}) → Io B → Io B
m >> k = m >>= λ _. k

-- A computed result as a step.
abbrev pub lift : {A : Type 0} → Fallible A → Io A
lift r s = (r, s)

-- An `io::Error` under `?` becomes an `anyhow::Error`.
unfoldable pub from_io : {A : Type 0} → IoResult A → Fallible A
from_io (ok a) = ok a
from_io (err e) = err (record { contexts = []; cause = Cause.io e })
from_io panic = panic

-- `flush`
pub flush_with : List (Option IoError) → Io (Unit {0})
flush_with [] s = (ok tt, s)
flush_with (none ∷ fs) s = (ok tt, record s { flushes = fs })
flush_with (some e ∷ fs) s = (from_io (err e), record s { flushes = fs })

pub flush : Io (Unit {0})
flush s = flush_with s.flushes s

-- `write_all` on the buffered stream.
pub write_all : Bytes → Io (Unit {0})
write_all bs s = (ok tt, record s { written = s.written ++ bs })

-- The buffer goes out whole, and its errors are ignored.
pub send_buffer : Option Bytes → Io (Unit {0})
send_buffer none s = (panic, s)
send_buffer (some buf) s = (ok tt, record s { serbuf = buf; written = s.written ++ buf })

pub write_message : Endian → Message → Io (Unit {0})
write_message e msg s = send_buffer (serialize e msg s.serbuf) s

pub write_cmd_complete : Endian → Str → Io (Unit {0})
write_cmd_complete e tag = write_message e (command_complete (record { tag = tag }))

abbrev pub severity_fatal : Str
severity_fatal = codes "FATAL"

-- The error that a flush leaves here is ignored.
pub ignore : {A : Type 0} → Fallible A × Sock → Fallible (Unit {0}) × Sock
ignore (panic, s) = (panic, s)
ignore (ok a, s) = (ok tt, s)
ignore (err e, s) = (ok tt, s)

pub on_error : (Bytes → Bytes) → Endian → Str → AnyError → Io (Unit {0})
on_error utf8_text e level error = do
  write_message e
      (error_response (new_error_response level (errcode error) (display_error utf8_text error)))
  λ s. ignore (flush s)

module _ (f : Float) (tables : GucTables f.Real) (e : Endian) where
  report_value : Str → Option Str → Io (Unit {0})
  report_value name none s = (panic, s)
  report_value name (some value) s =
      write_message e (parameter_status (record { name = name; value = value })) s

  report_generic : Str → GucState f.Real → GucIdx → Option (Generic f.Real) → Io (Unit {0})
  report_generic name gucvals gucidx none s = (panic, s)
  report_generic name gucvals gucidx (some gen) s =
      if not (should_report gen)
      then (ok tt, s)
      else report_value name (show f gen gucvals gucidx) s

  pub report_guc : Str → GucState f.Real → GucIdx → Io (Unit {0})
  report_guc name gucvals gucidx =
      report_generic name gucvals gucidx (get_guc_generic tables gucidx)

  -- `order` lists the map of names in the order that its iteration has.
  pub report_all_gucs : Assoc GucIdx → GucState f.Real → Io (Unit {0})
  report_all_gucs [] gucvals s = (ok tt, s)
  report_all_gucs ((name, gucidx) ∷ order) gucvals s =
      after (report_guc name gucvals gucidx s).0 (report_guc name gucvals gucidx s).1
        (λ _. report_all_gucs order gucvals)
