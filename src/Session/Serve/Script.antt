-- ===== src/Session/Serve/Script.antt =====
-- lib.rs: the loop for a client that sends queries and then terminates.
use kui_ba_db.Base.{
  ℕ, zero, suc, ◌+◌, ◌^◌, ◌<◌, ◌≡◌, refl, sym, ap, ◌∙◌, arith, Bytes, List, [], ◌∷◌, ◌++◌,
  append_assoc, append-nil, All, length, length-append, true, false, some, ok,
}
use kui_ba_db.Base.Text.{is_utf8}
use kui_ba_db.Common.{Float}
use kui_ba_db.Guc.{GucTables}
use kui_ba_db.Utils.Ser.{Endian}
use kui_ba_db.Utils.Err.{IoError, with_context}
use kui_ba_db.Protocol.Message.{Message}
use kui_ba_db.Protocol.Serialize.Frame.{frame, payload}
use kui_ba_db.Protocol.Read.Frames.{holding, read_message-frame}
use kui_ba_db.Protocol.Startup.Requests.{deserialize_query_utf8}
use kui_ba_db.Session.{Sock, after, flush, flush_with, write_cmd_complete}
use kui_ba_db.Session.Serve.{
  eq_ℤ, took, receive, ensure, until, handle_query, handle_message, round, rounds,
}
use kui_ba_db.Session.Serve.Output.{wire, sent, write_message-sent, ready, hello}

-- What the client sends: a query frame for each text, and a terminate frame.
abbrev pub query_frame : Bytes → Bytes
query_frame q = frame b'Q' (q ++ 0 ∷ [])

abbrev pub script : List Bytes → Bytes → Bytes
script [] rest = frame b'X' [] ++ rest
script (q ∷ qs) rest = query_frame q ++ script qs rest

-- What the server answers.
abbrev pub answers : List Bytes → List Message
answers [] = ready ∷ []
answers (q ∷ qs) = ready ∷ hello ∷ answers qs

-- A text that fits a query message.
abbrev pub IsQuery : Bytes → Type 0
IsQuery q = (is_utf8 q ≡ true) × (length q + 5 < 2 ^ 32)

-- A connection whose flushes succeed.
abbrev pub conn : IoError → Bytes → Bytes → Bytes → Sock
conn ending input written serbuf = record {
  input = holding ending input;
  written = written;
  serbuf = serbuf;
  flushes = [];
}

abbrev announced : Bytes → Bytes
announced written = written ++ frame b'Z' (payload ready)

module _ (f : Float) (tables : GucTables f.Real) (e : Endian) (ending : IoError) where
  module _ (written serbuf rest : Bytes) where
    query_round :
        (q : Bytes)
        → IsQuery q
        → round f tables e (conn ending (query_frame q ++ rest) written serbuf) ≡ (
          ok true,
          sent hello (conn ending rest (announced written) (frame b'Z' (payload ready))),
        )
    unfolding round flush flush_with receive took after with_context handle_message handle_query
        ensure eq_ℤ write_cmd_complete
    query_round q (u, fits) =
        let read =
          read_message-frame ending b'Q' (q ++ 0 ∷ []) rest (omega arith)
            (omega (arith, length-append q (0 ∷ []))) in
        rw (write_message-sent e ready (conn ending (query_frame q ++ rest) written serbuf)) (
          rw read (
            rw (deserialize_query_utf8 q 0 u) (
              rw
                (write_message-sent e hello
                  (conn ending rest (announced written) (frame b'Z' (payload ready))))
                refl)))

    last_round :
        round f tables e (conn ending (frame b'X' [] ++ rest) written serbuf)
        ≡ (ok false, conn ending rest (announced written) (frame b'Z' (payload ready)))
    unfolding round flush flush_with receive took after with_context handle_message ensure eq_ℤ
    last_round =
        rw (write_message-sent e ready (conn ending (frame b'X' [] ++ rest) written serbuf))
          (rw (read_message-frame ending b'X' [] rest (omega arith) (omega arith)) refl)

  -- With more fuel than queries, flushes that succeed, and query texts that are UTF-8 and fit a
  -- message, the loop answers each query once and in order, stops at the terminate message
  -- without an error, and leaves what follows it unread. The answer is the tag HELLOWORLD, and the
  -- ready message is idle, whatever a query says.
  pub rounds-script :
      (qs : List Bytes) (fuel : ℕ) (rest written serbuf : Bytes)
      → All IsQuery qs
      → length qs < fuel
      → (last : Bytes) × (rounds f tables e fuel (conn ending (script qs rest) written serbuf)
          ≡ some (ok tt, conn ending rest (written ++ wire (answers qs)) last))
  unfolding rounds until
  rounds-script qs zero rest written serbuf v h = absurd (omega arith)
  rounds-script [] (suc fuel) rest written serbuf v h = (
    z,
    rw (last_round written serbuf rest)
        (ap (λ t. some (ok tt, conn ending rest (written ++ t) z)) (sym (append-nil z))),
  )
    where
      z : Bytes
      z = frame b'Z' (payload ready)
  rounds-script (q ∷ qs) (suc fuel) rest written serbuf (vq, v) h =
      let z = frame b'Z' (payload ready) in
      let c = frame b'C' (payload hello) in
      let (last, eq) = rounds-script qs fuel rest ((written ++ z) ++ c) c v (omega arith) in
      (
        last,
        rw (query_round written serbuf (script qs rest) q vq) (
            eq
            ∙ ap (λ t. some (ok tt, conn ending rest t last))
                (append_assoc (written ++ z) c (wire (answers qs))
                  ∙ append_assoc written z (c ++ wire (answers qs)))),
      )
