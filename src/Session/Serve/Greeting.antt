-- ===== src/Session/Serve/Greeting.antt =====
-- lib.rs: what a connection is greeted with.
use kui_ba_db.Base.{
  ◌≡◌, refl, sym, ap, ◌∙◌, Bytes, List, [], ◌∷◌, ◌++◌, append_assoc, append-nil, true, false, some,
  ok,
}
use kui_ba_db.Base.Assoc.{Assoc}
use kui_ba_db.Common.{Float}
use kui_ba_db.Guc.{
  Str, GucIdx, GucState, GucTables, Generic, get_guc_generic, should_report, get_str,
}
use kui_ba_db.Guc.Gucdef.{client_encoding}
use kui_ba_db.Guc.Show.{show}
use kui_ba_db.Utils.Ser.{Endian}
use kui_ba_db.Utils.Err.{IoError}
use kui_ba_db.Protocol.Message.{Message, authentication_ok, parameter_status, backend_key_data}
use kui_ba_db.Protocol.Serialize.Frame.{frame, msg_type, payload}
use kui_ba_db.Protocol.Startup.{StartupMessage, check_client_encoding}
use kui_ba_db.Session.{Sock, after, report_value, report_generic, report_guc, report_all_gucs}
use kui_ba_db.Session.Serve.{ensure, expected_encoding, greet}
use kui_ba_db.Session.Serve.Output.{wire, sent, write_message-sent}
use kui_ba_db.Session.Serve.Script.{conn}

-- The connection after several messages.
abbrev pub sent_all : List Message → Sock → Sock
sent_all [] s = s
sent_all (m ∷ ms) s = sent_all ms (sent m s)

abbrev pub last_buffer : List Message → Bytes → Bytes
last_buffer [] b = b
last_buffer (m ∷ ms) b = last_buffer ms (frame (msg_type m) (payload m))

pub sent_all-conn :
    (ending : IoError) (ms : List Message) (input written b : Bytes)
    → sent_all ms (conn ending input written b)
      ≡ conn ending input (written ++ wire ms) (last_buffer ms b)
sent_all-conn ending [] input written b = ap (λ t. conn ending input t b) (sym (append-nil written))
sent_all-conn ending (m ∷ ms) input written b =
    let z = frame (msg_type m) (payload m) in
    sent_all-conn ending ms input (written ++ z) z
    ∙ ap (λ t. conn ending input t (last_buffer ms z)) (append_assoc written z (wire ms))

sent_all-append :
    (ms : List Message) (m : Message) (s : Sock)
    → sent m (sent_all ms s) ≡ sent_all (ms ++ m ∷ []) s
sent_all-append [] m s = refl
sent_all-append (n ∷ ms) m s = sent_all-append ms m (sent n s)

module _ (f : Float) (tables : GucTables f.Real) where
  -- The parameter statuses of the variables that are to be reported, in the order of the map.
  pub data Reports (g : GucState f.Real) : Assoc GucIdx → List Message → Type 0 where
    no_more : Reports g [] []
    silent :
        (name : Str) (idx : GucIdx) (gen : Generic f.Real) (order : Assoc GucIdx)
        (ms : List Message)
        → get_guc_generic tables idx ≡ some gen
        → should_report gen ≡ false
        → Reports g order ms
        → Reports g ((name, idx) ∷ order) ms
    reported :
        (name value : Str) (idx : GucIdx) (gen : Generic f.Real) (order : Assoc GucIdx)
        (ms : List Message)
        → get_guc_generic tables idx ≡ some gen
        → should_report gen ≡ true
        → show f gen g idx ≡ some value
        → Reports g order ms
        → Reports g
            ((name, idx) ∷ order)
            (parameter_status (record { name = name; value = value }) ∷ ms)

  -- What the client is told before the loop.
  abbrev pub greeting : List Message → List Message
  greeting ms =
      authentication_ok ∷ (ms ++ backend_key_data (record { backendid = 0; key = 0 }) ∷ [])

  module _ (e : Endian) (g : GucState f.Real) where
    report_all_gucs-Reports :
        (order : Assoc GucIdx) (ms : List Message) (s : Sock)
        → Reports g order ms
        → report_all_gucs f tables e order g s ≡ (ok tt, sent_all ms s)
    unfolding report_all_gucs report_guc report_generic report_value after
    report_all_gucs-Reports [] [] s no_more = refl
    report_all_gucs-Reports [] (m ∷ ms) s r = elim r [ ]
    report_all_gucs-Reports ((name, idx) ∷ order) ms s (silent _ _ gen _ _ hg hs r) =
        rw (hg, hs) (report_all_gucs-Reports order ms s r)
    report_all_gucs-Reports ((name, idx) ∷ order) (m ∷ ms) s
          (reported _ value _ gen _ _ hg hs hv r) =
        rw (hg, hs, hv, write_message-sent e m s) (report_all_gucs-Reports order ms (sent m s) r)

    pub greet-greeting :
        (order : Assoc GucIdx) (ms : List Message) (startup : StartupMessage) (enc : Str) (s : Sock)
        → Reports g order ms
        → get_str g client_encoding ≡ some enc
        → check_client_encoding startup enc ≡ true
        → greet f tables e order g startup s ≡ (ok tt, sent_all (greeting ms) s)
    unfolding greet ensure expected_encoding after
    greet-greeting order ms startup enc s r he hc =
        let key = backend_key_data (record { backendid = 0; key = 0 }) in
        rw
          (
            he,
            hc,
            write_message-sent e authentication_ok s,
            report_all_gucs-Reports order ms (sent authentication_ok s) r,
            write_message-sent e key (sent_all ms (sent authentication_ok s)),
          )
          (ap (λ t. (ok tt, t)) (sent_all-append ms key (sent authentication_ok s)))
