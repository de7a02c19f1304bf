-- ===== src/Session/Serve/Conversation.antt =====
-- lib.rs and protocol.rs: a whole session of a client that keeps to the protocol.
use kui_ba_db.Base.{
  suc, ◌+◌, ◌^◌, ◌≤◌, ◌<◌, ◌≡◌, refl, arith, Bytes, List, [], ◌∷◌, ◌++◌, append_assoc, append-nil,
  All, length, length-append, Bool, true, false, some, ok,
}
use kui_ba_db.Base.Assoc.{Assoc, lookup}
use kui_ba_db.Common.{Float}
use kui_ba_db.Guc.{Str, GucIdx, GucState, GucTables, get_str}
use kui_ba_db.Guc.Gucdef.{client_encoding}
use kui_ba_db.Utils.Ser.{Endian, be_bytes}
use kui_ba_db.Utils.Err.{IoError, with_context}
use kui_ba_db.Protocol.Message.{Message}
use kui_ba_db.Protocol.Read.{read_startup_message}
use kui_ba_db.Protocol.Read.Frames.{read_body-frame}
use kui_ba_db.Protocol.Startup.{startup_user_param, ssl_code, check_client_encoding}
use kui_ba_db.Protocol.Startup.Total.{encode_params, IsParam, insert_all}
use kui_ba_db.Protocol.Startup.Opening.{
  startup_body, startup_of, startup-no_cancel, startup-no_ssl, ssl-no_cancel, ssl-ssl,
  deserialize_startup-startup_body,
}
use kui_ba_db.Session.{after, flush, flush_with, write_all, ignore}
use kui_ba_db.Session.Serve.{
  took, receive_startup, no_cancel, nossl, after_ssl, accept, run_rounds, do_postgres_main,
  finish_session, finish_all, postgres_main,
}
use kui_ba_db.Session.Serve.Output.{wire, wire-append}
use kui_ba_db.Session.Serve.Script.{conn, script, query_frame, answers, IsQuery, rounds-script}
use kui_ba_db.Session.Serve.Greeting.{
  Reports, greeting, sent_all, sent_all-conn, last_buffer, greet-greeting,
}

-- A message before the type bytes: its length and its body.
abbrev pub untyped : Bytes → Bytes
untyped body = be_bytes 4 (length body + 4) ++ body

-- How a client opens: it may ask for SSL first.
abbrev pub opening : Bool → List (Str × Str) → Bytes
opening true ps = untyped ssl_code ++ untyped (startup_body ps)
opening false ps = untyped (startup_body ps)

-- SSL is declined.
abbrev pub ssl_reply : Bool → Bytes
ssl_reply true = b'N' ∷ []
ssl_reply false = []

-- A client that sends more queries sends more bytes.
length-script : (qs : List Bytes) (rest : Bytes) → length qs ≤ length (script qs rest)
length-script [] rest = omega arith
length-script (q ∷ qs) rest =
    omega (arith, length-script qs rest, length-append (query_frame q) (script qs rest))

module _ (ending : IoError) where
  receive_startup-untyped :
      (body rest written b : Bytes)
      → length body + 4 < 2 ^ 32
      → receive_startup (conn ending (untyped body ++ rest) written b)
        ≡ (ok body, conn ending rest written b)
  unfolding receive_startup took read_startup_message
  receive_startup-untyped body rest written b h =
      rw (append_assoc (be_bytes 4 (length body + 4)) body rest, read_body-frame ending body rest h)
        refl

  module _ (f : Float) (tables : GucTables f.Real) (e : Endian) (order : Assoc GucIdx)
      (g : GucState f.Real) (ps : List (Str × Str)) (user enc : Str) (ms : List Message)
      (valid : All IsParam ps) (fits : length (startup_body ps) + 4 < 2 ^ 32)
      (is_user : lookup startup_user_param (insert_all ps []) ≡ some user)
      (is_enc : get_str g client_encoding ≡ some enc)
      (checks : check_client_encoding (startup_of ps user) enc ≡ true)
      (reports : Reports f tables g order ms) where
    accept-opening :
        (ssl : Bool) (rest written b : Bytes)
        → accept f tables e order g (conn ending (opening ssl ps ++ rest) written b)
          ≡ (ok tt, sent_all (greeting f tables ms) (conn ending rest (written ++ ssl_reply ssl) b))
    unfolding accept after no_cancel after_ssl write_all nossl flush flush_with with_context
    accept-opening false rest written b =
        rw
          (
            receive_startup-untyped (startup_body ps) rest written b fits,
            startup-no_cancel (encode_params ps ++ []),
            startup-no_ssl (encode_params ps ++ []),
            deserialize_startup-startup_body ps user valid is_user,
            append-nil written,
          )
          (greet-greeting f tables e g order ms (startup_of ps user) enc
            (conn ending rest written b) reports is_enc checks)
    accept-opening true rest written b =
        let w = written ++ b'N' ∷ [] in
        rw
          (
            append_assoc (untyped ssl_code) (untyped (startup_body ps)) rest,
            receive_startup-untyped ssl_code (untyped (startup_body ps) ++ rest) written b
                (omega arith),
            ssl-no_cancel,
            ssl-ssl,
            receive_startup-untyped (startup_body ps) rest w b fits,
            deserialize_startup-startup_body ps user valid is_user,
          )
          (greet-greeting f tables e g order ms (startup_of ps user) enc (conn ending rest w b)
            reports is_enc checks)

    -- For a client that keeps to the protocol, on a connection whose flushes succeed: it may ask for
    -- SSL, then sends a startup message of version 3.0 with valid parameters that fits a message, a
    -- user and an encoding that the server accepts, then queries that are UTF-8 and fit a message, and
    -- a terminate message. The whole session ends without an error; the server has declined SSL if
    -- asked, then sent AuthenticationOk, the status of every variable to be reported in the order of
    -- the map, BackendKeyData, and for each query one ReadyForQuery and one answer, then a last
    -- ReadyForQuery; what follows the terminate message is left unread. The answer is the tag
    -- HELLOWORLD, and each ReadyForQuery is idle, whatever a query says.
    pub postgres_main-script :
        (utf8_text : Bytes → Bytes) (ssl : Bool) (qs : List Bytes) (rest written b : Bytes)
        → All IsQuery qs
        → (last : Bytes) × (postgres_main f tables e utf8_text order g
              (conn ending (opening ssl ps ++ script qs rest) written b)
            ≡ some (
              ok tt,
              conn ending rest
                  ((written ++ ssl_reply ssl) ++ wire (greeting f tables ms ++ answers qs))
                  last,
            ))
    unfolding postgres_main do_postgres_main run_rounds finish_all finish_session ignore flush
        flush_with
    postgres_main-script utf8_text ssl qs rest written b v =
        let hello = greeting f tables ms in
        let w = written ++ ssl_reply ssl in
        let enough : length qs < suc (length (opening ssl ps ++ script qs rest)) =
          omega (arith, length-script qs rest, length-append (opening ssl ps) (script qs rest)) in
        let (last, r) =
          rounds-script f tables e ending qs (suc (length (opening ssl ps ++ script qs rest))) rest
            (w ++ wire hello) (last_buffer hello b) v enough in
        (
          last,
          rw
              (
                accept-opening ssl (script qs rest) written b,
                sent_all-conn ending hello (script qs rest) w b,
                r,
                append_assoc w (wire hello) (wire (answers qs)),
                ← wire-append hello (answers qs),
              )
              refl,
        )
