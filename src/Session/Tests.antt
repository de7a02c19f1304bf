-- ===== src/Session/Tests.antt =====
-- Sessions of a few messages.
use kui_ba_db.Base.{◌≡◌, refl, arith, All, Bytes, List, [], ◌∷◌, ◌++◌, none, some, ok, true}
use kui_ba_db.Base.Int.{ℤ}
use kui_ba_db.Base.Text.{codes, is_utf8, eq_ignore_ascii_case}
use kui_ba_db.Common.{Float}
use kui_ba_db.Guc.{GucTables}
use kui_ba_db.Guc.Gucdef.{default_state, nameinfo_map, tables}
use kui_ba_db.Utils.Ser.{Endian}
use kui_ba_db.Utils.Err.{IoError, Fallible}
use kui_ba_db.Session.{Sock}
use kui_ba_db.Session.Serve.{do_postgres_main, postgres_main, round, rounds}
use kui_ba_db.Session.Serve.Output.{RoundSpec, round-RoundSpec, RoundsEnd, rounds_end, wire}
use kui_ba_db.Session.Serve.Script.{IsQuery, answers, conn, rounds-script, script}
use kui_ba_db.Base.Assoc.{Assoc, lookup, insert}
use kui_ba_db.Guc.{GucIdx, get_guc_generic, generic_of, should_report, get_str}
use kui_ba_db.Guc.Gucdef.{port, server_version, client_encoding}
use kui_ba_db.Guc.Show.{show}
use kui_ba_db.Protocol.Message.{Message, parameter_status}
use kui_ba_db.Protocol.Startup.{check_client_encoding, is_empty}
use kui_ba_db.Protocol.Startup.Total.{IsParam}
use kui_ba_db.Protocol.Startup.Opening.{startup_of}
use kui_ba_db.Session.Serve.Greeting.{Reports, no_more, silent, reported, greeting}
use kui_ba_db.Guc.{LogState, LevelFilter}
use kui_ba_db.Guc.Load.{load, load_docs}
use kui_ba_db.Guc.Load.Total.{booted}
use kui_ba_db.Guc.Load.Shown.{IsIndex}
use kui_ba_db.Session.Serve.Loaded.{postgres_main-loaded}
use kui_ba_db.Session.Serve.Conversation.{opening, postgres_main-script}
use kui_ba_db.Session.Serve.Ends.{Reported, postgres_main_ends}

abbrev integral : Float
integral = record { Real = ℤ; parse_f64 = λ s. none; of_i64 = λ n. n; show_f64 = λ n. codes "0" }

abbrev all_tables : GucTables ℤ
all_tables = tables integral (λ s. true)

abbrev closed : IoError
closed = record { text = codes "unexpected end of file" }

abbrev questions : List Bytes
questions = codes "select 1" ∷ codes "select 2" ∷ []

-- The client's bytes are on the connection; the flush of the first round fails.
abbrev broken : Sock
broken = record {
  input = record { avail = codes "Q"; ending = closed };
  written = [];
  serbuf = [];
  flushes = some closed ∷ [];
}

round-RoundSpec_example : RoundSpec broken (round integral all_tables Endian.little broken)
round-RoundSpec_example = round-RoundSpec integral all_tables Endian.little broken

rounds_end_example : RoundsEnd (rounds integral all_tables Endian.little 2 broken) broken
rounds_end_example = rounds_end integral all_tables Endian.little 2 broken (omega arith)

questions-IsQuery : All IsQuery questions
unfolding is_utf8
questions-IsQuery = ((refl, omega arith), ((refl, omega arith), tt))

rounds-script_example :
    (last : Bytes) × (rounds integral all_tables Endian.little 3
        (conn closed (script questions []) [] [])
      ≡ some (ok tt, conn closed [] ([] ++ wire (answers questions)) last))
rounds-script_example =
    rounds-script integral all_tables Endian.little closed questions 3 [] [] [] questions-IsQuery
      (omega arith)

postgres_main_ends_example :
    (p r : Fallible (Unit {0}) × Sock) × (do_postgres_main integral all_tables Endian.little
        nameinfo_map
        (default_state integral)
        broken
      ≡ some p)
    × (postgres_main integral all_tables Endian.little
          (λ b. b)
          nameinfo_map
          (default_state integral)
          broken
        ≡ some r)
    × Reported (λ b. b) p r
postgres_main_ends_example =
    postgres_main_ends integral all_tables Endian.little (λ b. b) nameinfo_map
      (default_state integral) broken

-- A client that asks for SSL, names its user and encoding, and sends two queries.
abbrev client : List (Bytes × Bytes)
client = (codes "user", codes "kuiba") ∷ (codes "client_encoding", codes "utf8") ∷ []

client-IsParam : All IsParam client
unfolding is_utf8 is_empty
client-IsParam = (
  ((omega arith, refl), refl, (omega arith, refl)),
  (((omega arith, refl), refl, (omega arith, refl)), tt),
)

abbrev some_gucs : Assoc GucIdx
some_gucs =
    (codes "port", GucIdx.int_idx port)
    ∷ (codes "server_version", GucIdx.str_idx server_version)
    ∷ []

abbrev version_report : List Message
version_report =
    parameter_status (record { name = codes "server_version"; value = codes "0.0.1" }) ∷ []

abbrev opened : Sock
opened = conn closed (opening true client ++ script questions []) [] []

some_gucs-Reports : Reports integral all_tables (default_state integral) some_gucs version_report
unfolding get_guc_generic generic_of should_report show
some_gucs-Reports = silent _ _ _ _ _ refl refl (reported _ _ _ _ _ _ refl refl refl no_more)

postgres_main-script_example :
    (last : Bytes) × (postgres_main integral all_tables Endian.little
        (λ b. b)
        some_gucs
        (default_state integral)
        opened
      ≡ some (
        ok tt,
        conn closed []
            (([] ++ codes "N")
              ++ wire (greeting integral all_tables version_report ++ answers questions))
            last,
      ))
unfolding lookup insert eq_ignore_ascii_case
postgres_main-script_example =
    postgres_main-script closed integral all_tables Endian.little some_gucs (default_state integral)
      client (codes "kuiba") (codes "UTF8") version_report client-IsParam (omega arith) refl is_enc
      checks some_gucs-Reports (λ b. b) true questions [] [] [] questions-IsQuery
  where
    is_enc : get_str (default_state integral) client_encoding ≡ some (codes "UTF8")
    is_enc = unfold get_str in refl

    checks : check_client_encoding (startup_of client (codes "kuiba")) (codes "UTF8") ≡ true
    checks = unfold check_client_encoding in refl

abbrev untouched : LogState
untouched = record { filter = codes "off"; max_level = LevelFilter.off }

-- The file is empty, and the client is told of every variable of the map.
nothing_set :
    load integral all_tables (booted integral untouched) (ok []) ≡ ok (booted integral untouched)
unfolding load load_docs
nothing_set = refl

nameinfo_map-IsIndex : All (λ p. IsIndex p.1) nameinfo_map
nameinfo_map-IsIndex = omega arith

postgres_main-loaded_example :
    (ms : List Message) × Reports integral all_tables (default_state integral) nameinfo_map ms
    × (last : Bytes) × (postgres_main integral all_tables Endian.little
          (λ b. b)
          nameinfo_map
          (default_state integral)
          opened
        ≡ some (
          ok tt,
          conn closed []
              (([] ++ codes "N") ++ wire (greeting integral all_tables ms ++ answers questions))
              last,
        ))
unfolding lookup insert eq_ignore_ascii_case check_client_encoding
postgres_main-loaded_example =
    postgres_main-loaded integral (λ s. true) untouched closed Endian.little (ok [])
      (booted integral untouched) nameinfo_map client (codes "kuiba") nothing_set
      nameinfo_map-IsIndex client-IsParam (omega arith) refl refl (λ b. b) true questions [] [] []
      questions-IsQuery
