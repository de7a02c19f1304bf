-- ===== src/Session/Serve/Output.antt =====
-- lib.rs: what a session writes and how much it reads, round by round.
mod Spec
use kui_ba_db.Base.{
  ℕ, zero, suc, ◌<◌, ◌≡◌, refl, sym, ap, ◌∙◌, arith, inl, inr, Bytes, List, [], ◌∷◌, ◌++◌,
  append_assoc, append-nil, Bool, true, false, Bool-cases, Option, none, some, ok, err, panic,
  length,
}
use kui_ba_db.Base.{◌≢◌, ◌⊎◌, ==_iff}
use mathlib.Core.Logic.{◌↔◌}
use mathlib.Core.Path.{subst}
use kui_ba_db.Base.Int.{ℤ, pos, negsuc}
use kui_ba_db.Base.Text.{codes}
use kui_ba_db.Common.{Float}
use kui_ba_db.Guc.{GucTables}
use kui_ba_db.Utils.Ser.{Endian}
use kui_ba_db.Utils.Err.{IoError, AnyError, ErrCtx, Fallible, errctx, with_context}
use kui_ba_db.Protocol.Errcodes.{errcode_connection_failure}
use kui_ba_db.Protocol.Message.{XactStatus, Message, command_complete, ready_for_query}
use kui_ba_db.Protocol.Startup.{deserialize_query}
use kui_ba_db.Protocol.Startup.Requests.{deserialize_query-no_panic}
use kui_ba_db.Protocol.Serialize.Frame.{frame, msg_type, payload, serialize-frame}
use kui_ba_db.Protocol.Read.{InStream, IoResult, read_message}
use kui_ba_db.Protocol.Read.Frames.{read_message-shrinks}
use kui_ba_db.Session.{
  Sock, after, ◌>>◌, lift, from_io, flush, flush_with, send_buffer, write_message,
  write_cmd_complete,
}
use kui_ba_db.Session.Serve.{
  eq_ℤ, msg_eof, msg_terminate, msg_query, took, receive, ensure, until, handle_query,
  handle_message, round, rounds,
}
pub use kui_ba_db.Session.Serve.Output.Spec.{
  wire, wire-append, wire-join, sent, write_message-sent, ready, hello, later, flush_ok, Stopped,
  over, not_flushed, not_read, unexpected, no_query, bad_length, RoundSpec, Answers, left, failed,
  panicked, answered, RoundsEnd,
}

eq_ℤ_iff : (m n : ℤ) → (eq_ℤ m n ≡ true) ↔ (m ≡ n)
unfolding eq_ℤ
eq_ℤ_iff (pos m) (pos n) = ground (arith, ==_iff m n)
eq_ℤ_iff (negsuc m) (negsuc n) = ground (arith, ==_iff m n)
eq_ℤ_iff (pos m) (negsuc n) = (λ h. cc, λ h. cc)
eq_ℤ_iff (negsuc m) (pos n) = (λ h. cc, λ h. cc)

ne_ℤ : (m n : ℤ) → eq_ℤ m n ≡ false → m ≢ n
ne_ℤ m n h e = let h' = (eq_ℤ_iff m n).1 e in cc

module _ (f : Float) (tables : GucTables f.Real) (e : Endian) (s : Sock) where
  -- `s3` is the connection behind the message that the round read.
  module _ (s3 : Sock) (output : s3.written ≡ s.written ++ wire (ready ∷ []))
      (can : flush_ok s.flushes ≡ true) (flushed : s3.flushes ≡ later s.flushes)
      (body : Bytes) where
    shape : (sent hello s3).written ≡ s.written ++ wire (ready ∷ hello ∷ [])
    shape = rw output (simp (append_assoc, append-nil))

    answer :
        (c : ErrCtx) (q : Fallible Bytes)
        → read_message s.input ≡ ok ((pos b'Q', body), s3.input)
        → deserialize_query body ≡ q
        → RoundSpec s (
            after
              (with_context c q)
              s3
              (λ _. do write_cmd_complete e (codes "HELLOWORLD"); lift (ok true)))
    unfolding after write_cmd_complete with_context
    answer c (ok q) got dq =
        rw (write_message-sent e hello s3) (body, q, can, got, dq, flushed, shape)
    answer c (err x) got dq = (no_query x body s3.input can got dq, output)
    answer c panic got dq = absurd (deserialize_query-no_panic body dq)

    handle_message-RoundSpec :
        (t : ℤ)
        → read_message s.input ≡ ok ((t, body), s3.input)
        → RoundSpec s (handle_message f tables e t body s3)
    unfolding handle_message handle_query ensure after
    handle_message-RoundSpec t got = elim (Bool-cases (eq_ℤ t msg_eof)) [
      | inl eof ↦
          rw eof (over t body s3.input can got (inr ((eq_ℤ_iff t (negsuc 0)).0 eof)), output)
      | inr no_eof ↦ elim (Bool-cases (eq_ℤ t msg_terminate)) [
        | inl end ↦
            rw (no_eof, end)
              (over t body s3.input can got (inl ((eq_ℤ_iff t (pos b'X')).0 end)), output)
        | inr no_end ↦ elim (Bool-cases (eq_ℤ t msg_query)) [
          | inl query ↦
              rw (no_eof, no_end, query)
                (answer _ (deserialize_query body)
                  (subst (λ u. read_message s.input ≡ ok ((u, body), s3.input))
                    ((eq_ℤ_iff t (pos b'Q')).0 query) got)
                  refl)
          | inr odd ↦
              rw (no_eof, no_end, odd)
                (
                  unexpected t body s3.input can got (ne_ℤ t (pos b'X') no_end)
                      (ne_ℤ t (negsuc 0) no_eof) (ne_ℤ t (pos b'Q') odd),
                  output,
                )
        ]
      ]
    ]

  receive-RoundSpec :
      (s2 : Sock)
      → s2.written ≡ s.written ++ wire (ready ∷ [])
      → flush_ok s.flushes ≡ true
      → s2.flushes ≡ later s.flushes
      → s2.input ≡ s.input
      → RoundSpec s (after (receive s2).0 (receive s2).1 (λ m. handle_message f tables e m.0 m.1))
  unfolding receive took
  receive-RoundSpec s2 output can flushed same = go (read_message s2.input) refl
    where
      go :
          (r : IoResult ((ℤ × Bytes) × InStream))
          → read_message s2.input ≡ r
          → RoundSpec s (
              after
                (with_context
                  (errctx errcode_connection_failure (codes "read_message failed"))
                  (took r s2).0)
                (took r s2).1
                (λ m. handle_message f tables e m.0 m.1))
      go (ok ((t, body), rest)) got =
          unfold took with_context after in
          handle_message-RoundSpec (record s2 { input = rest }) output can flushed body t
            (ap read_message (sym same) ∙ got)
      go (err x) got =
          unfold took with_context from_io after in
          (not_read x can (ap read_message (sym same) ∙ got), output)
      go panic got =
          unfold took with_context after in
          (bad_length can (ap read_message (sym same) ∙ got), output)

  flush-RoundSpec :
      (fs : List (Option IoError)) (s1 : Sock)
      → s.flushes ≡ fs
      → s1.written ≡ s.written ++ wire (ready ∷ [])
      → s1.input ≡ s.input
      → s1.flushes ≡ s.flushes
      → RoundSpec s (
          after
            (flush_with fs s1).0
            (flush_with fs s1).1
            (λ _ s2. after (receive s2).0 (receive s2).1 (λ m. handle_message f tables e m.0 m.1)))
  unfolding flush_with after
  flush-RoundSpec [] s1 at output input fl =
      receive-RoundSpec s1 output (rw at refl) (fl ∙ rw at refl) input
  flush-RoundSpec (none ∷ fs) s1 at output input fl =
      receive-RoundSpec (record s1 { flushes = fs }) output (rw at refl) (rw at refl) input
  flush-RoundSpec (some x ∷ fs) s1 at output input fl =
      unfold from_io in (not_flushed x fs at, output)

  -- Each way out of a round. It goes on only after a flush that goes through and a Query message
  -- whose body is a query: then it has written a ready message and the answer, and leaves the input
  -- behind the message. It ends without an error only on a Terminate message or one of the type
  -- byte 0xFF, it fails only if the flush fails, no message is read, the message is of another type
  -- than Query or its body is no query, and it panics only if the length field is below 4. In all
  -- these cases it has written a ready message and nothing else.
  pub round-RoundSpec : RoundSpec s (round f tables e s)
  unfolding round after
  round-RoundSpec = rw (write_message-sent e ready s) (
      unfold flush in
      flush-RoundSpec s.flushes (sent ready s) refl (ap (λ t. s.written ++ t) (sym (append-nil _)))
        refl refl)

module _ (f : Float) (tables : GucTables f.Real) (e : Endian) where
  next_round :
      (fuel : ℕ) (s : Sock) (p : Fallible Bool × Sock)
      → ((s' : Sock) → length s'.input.avail < fuel → RoundsEnd (rounds f tables e fuel s') s')
      → length s.input.avail < suc fuel
      → RoundSpec s p
      → round f tables e s ≡ p
      → RoundsEnd (rounds f tables e (suc fuel) s) s
  unfolding rounds until
  next_round fuel s (ok true, s') ih h (body, q, can, got, dq, fl, out) at =
      let r = ih s' (omega (arith, read_message-shrinks s.input _ s'.input got)) in
      record {
        result = r.result;
        last = r.last;
        messages = ready ∷ hello ∷ r.messages;
        ends = rw at r.ends;
        conform =
            answered can got dq (subst (λ t. Answers s'.input t r.result r.messages) fl r.conform);
        output = wire-join s.written (ready ∷ hello ∷ []) r.messages out r.output;
      }
  next_round fuel s (ok false, s') ih h (why, out) at = record {
    result = ok tt;
    last = s';
    messages = ready ∷ [];
    ends = rw at refl;
    conform = left why;
    output = out;
  }
  next_round fuel s (err x, s') ih h (why, out) at = record {
    result = err x;
    last = s';
    messages = ready ∷ [];
    ends = rw at refl;
    conform = failed why;
    output = out;
  }
  next_round fuel s (panic, s') ih h (why, out) at = record {
    result = panic;
    last = s';
    messages = ready ∷ [];
    ends = rw at refl;
    conform = panicked why;
    output = out;
  }

  -- With more fuel than input the loop ends. Until then, for each Query message that it reads from
  -- the input, one after the other, it has written a ready message and an answer, and then a last
  -- ready message. Every flush but the last went through, and the loop stops for one of the reasons
  -- of a round: without an error only at a Terminate message or one of the type byte 0xFF.
  pub rounds_end :
      (fuel : ℕ) (s : Sock) → length s.input.avail < fuel → RoundsEnd (rounds f tables e fuel s) s
  rounds_end zero s h = absurd (omega arith)
  rounds_end (suc fuel) s h =
      next_round fuel s (round f tables e s) (rounds_end fuel) h (round-RoundSpec f tables e s) refl
