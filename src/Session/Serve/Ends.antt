-- ===== src/Session/Serve/Ends.antt =====
-- lib.rs: a whole session, its end and the report of its error.
use kui_ba_db.Base.{
  ℕ, suc, ◌≤◌, inl, inr, not, Bool-cases, ◌≡◌, refl, sym, ap, ◌∙◌, arith, Bytes, List, [], ◌∷◌,
  ◌++◌, append-nil, length, Bool, true, false, Option, none, some, ok, err, panic,
}
use kui_ba_db.Base.Assoc.{Assoc}
use kui_ba_db.Common.{Float}
use kui_ba_db.Guc.{Str, GucIdx, GucState, GucTables, Generic, should_report}
use kui_ba_db.Utils.Ser.{Endian}
use kui_ba_db.Utils.Err.{IoError, AnyError, Fallible, errcode, display_error}
use kui_ba_db.Protocol.Message.{Message, authentication_ok, error_response, new_error_response}
use kui_ba_db.Protocol.Read.{InStream, IoResult, read_startup_message}
use kui_ba_db.Protocol.Read.Frames.{read_body-shrinks}
use kui_ba_db.Protocol.Startup.{CancelRequest, StartupMessage}
use kui_ba_db.Session.{
  Sock, Io, after, from_io, flush, flush_with, write_all, write_message, severity_fatal, ignore,
  on_error, report_value, report_generic, report_guc, report_all_gucs,
}
use kui_ba_db.Session.Serve.{
  took, receive_startup, ensure, no_cancel, after_ssl, greet, accept, run_rounds, do_postgres_main,
  finish_session, finish_all, postgres_main,
}
use kui_ba_db.Session.Serve.Output.{wire, sent, write_message-sent, rounds_end}

-- A step gives no input back.
abbrev Keeps : {A : Type 0} → Io A → Type 0
Keeps m = (s : Sock) → length ((m s).1).input.avail ≤ length s.input.avail

after-Keeps :
    {A B : Type 0} (n : ℕ) (p : Fallible A × Sock) (k : A → Io B)
    → length p.1.input.avail ≤ n
    → ((a : A) → Keeps (k a))
    → length ((after p.0 p.1 k).1).input.avail ≤ n
unfolding after
after-Keeps n (ok a, s) k h hk = omega (arith, hk a s)
after-Keeps n (err x, s) k h hk = h
after-Keeps n (panic, s) k h hk = h

bind-Keeps :
    {A B : Type 0} (m : Io A) (k : A → Io B)
    → Keeps m
    → ((a : A) → Keeps (k a))
    → Keeps (λ s. after (m s).0 (m s).1 k)
bind-Keeps m k hm hk s = after-Keeps _ (m s) k (hm s) hk

pure-Keeps :
    {A B : Type 0} (r : Fallible A) (k : A → Io B)
    → ((a : A) → Keeps (k a))
    → Keeps (λ s. after r s k)
pure-Keeps r k hk s = after-Keeps _ (r, s) k (omega arith) hk

flush-Keeps : Keeps flush
unfolding flush
flush-Keeps s = go s.flushes
  where
    go :
        (fs : List (Option IoError))
        → length ((flush_with fs s).1).input.avail ≤ length s.input.avail
    go [] = unfold flush_with in omega arith
    go (none ∷ fs) = unfold flush_with in omega arith
    go (some x ∷ fs) = unfold flush_with in omega arith

receive_startup-Keeps : Keeps receive_startup
unfolding receive_startup read_startup_message
receive_startup-Keeps s = go (read_startup_message s.input) refl
  where
    go :
        (r : IoResult (Bytes × InStream))
        → read_startup_message s.input ≡ r
        → length ((took r s).1).input.avail ≤ length s.input.avail
    go (ok (b, rest)) e = unfold took in read_body-shrinks s.input b rest e
    go (err x) e = unfold took in omega arith
    go panic e = unfold took in omega arith

no_cancel-Keeps : (o : Option CancelRequest) → Keeps (no_cancel o)
unfolding no_cancel
no_cancel-Keeps none s = omega arith
no_cancel-Keeps (some r) s = omega arith

after_ssl-Keeps : (o : Option (Unit {0})) (b : Bytes) → Keeps (after_ssl o b)
unfolding after_ssl write_all after
after_ssl-Keeps none b s = omega arith
after_ssl-Keeps (some u) b s =
    after-Keeps _ (flush _) _ (flush-Keeps _) (λ a. receive_startup-Keeps)

ensure-Keeps : (b : Bool) (x : AnyError) → Keeps (ensure b x)
unfolding ensure
ensure-Keeps true x s = omega arith
ensure-Keeps false x s = omega arith

-- How a session's result is reported: an error by an `ErrorResponse` of level FATAL, a success
-- by nothing; an I/O error of the last flush is dropped, and a panic goes on.
abbrev pub Reported :
    (Bytes → Bytes) → Fallible (Unit {0}) × Sock → Fallible (Unit {0}) × Sock → Type 0
Reported utf8_text (ok _, s) r = (r.0 ≡ ok tt) × (r.1.written ≡ s.written)
Reported utf8_text (err x, s) r =
    (r.0 ≡ ok tt)
    × (r.1.written
        ≡ s.written
          ++ wire (
              error_response
                (new_error_response severity_fatal (errcode x) (display_error utf8_text x))
              ∷ []))
Reported utf8_text (panic, s) r = r ≡ (panic, s)

module _ (f : Float) (tables : GucTables f.Real) (e : Endian) where
  write_message-Keeps : (m : Message) → Keeps (write_message e m)
  write_message-Keeps m s = rw (write_message-sent e m s) (omega arith)

  report_value-Keeps : (name : Str) (v : Option Str) → Keeps (report_value f tables e name v)
  unfolding report_value
  report_value-Keeps name none s = omega arith
  report_value-Keeps name (some v) s = write_message-Keeps _ s

  report_generic-Keeps :
      (name : Str) (g : GucState f.Real) (idx : GucIdx) (o : Option (Generic f.Real))
      → Keeps (report_generic f tables e name g idx o)
  unfolding report_generic
  report_generic-Keeps name g idx none s = omega arith
  report_generic-Keeps name g idx (some gen) s = elim (Bool-cases (not (should_report gen))) [
    | inl quiet ↦ rw quiet (omega arith)
    | inr told ↦ rw told (report_value-Keeps name _ s)
  ]

  report_all_gucs-Keeps :
      (order : Assoc GucIdx) (g : GucState f.Real) → Keeps (report_all_gucs f tables e order g)
  unfolding report_all_gucs
  report_all_gucs-Keeps [] g s = omega arith
  report_all_gucs-Keeps ((name, idx) ∷ order) g s =
      bind-Keeps (report_guc f tables e name g idx) _
        (unfold report_guc in report_generic-Keeps name g idx _)
        (λ a. report_all_gucs-Keeps order g) s

  greet-Keeps :
      (order : Assoc GucIdx) (g : GucState f.Real) (m : StartupMessage)
      → Keeps (greet f tables e order g m)
  unfolding greet
  greet-Keeps order g m = pure-Keeps _ _ (λ expected.
      bind-Keeps (ensure _ _) _ (ensure-Keeps _ _) (λ a.
        bind-Keeps (write_message e authentication_ok) _ (write_message-Keeps _) (λ a.
          bind-Keeps (report_all_gucs f tables e order g) _ (report_all_gucs-Keeps order g)
            (λ a. write_message-Keeps _))))

  accept-Keeps : (order : Assoc GucIdx) (g : GucState f.Real) → Keeps (accept f tables e order g)
  unfolding accept
  accept-Keeps order g = bind-Keeps receive_startup _ receive_startup-Keeps (λ first.
      bind-Keeps (no_cancel _) _ (no_cancel-Keeps _) (λ a.
        bind-Keeps (after_ssl _ first) _ (after_ssl-Keeps _ first)
          (λ inmsgbuf. pure-Keeps _ _ (λ startup. greet-Keeps order g startup))))

  -- The loop has enough fuel, so the session always ends.
  do_postgres_main_ends :
      (order : Assoc GucIdx) (g : GucState f.Real) (s : Sock)
      → (r : Fallible (Unit {0}) × Sock) × (do_postgres_main f tables e order g s ≡ some r)
  unfolding do_postgres_main
  do_postgres_main_ends order g s = go (accept f tables e order g s) (accept-Keeps order g s)
    where
      go :
          (p : Fallible (Unit {0}) × Sock)
          → length p.1.input.avail ≤ length s.input.avail
          → (r : Fallible (Unit {0}) × Sock) × (run_rounds f tables e (suc (length s.input.avail)) p
              ≡ some r)
      go (ok u, s') h =
          unfold run_rounds in
          let r = rounds_end f tables e (suc (length s.input.avail)) s' (omega arith) in
          ((r.result, r.last), r.ends)
      go (err x, s') h = unfold run_rounds in (_, refl)
      go (panic, s') h = unfold run_rounds in (_, refl)

  ignore-flush :
      (s : Sock) → ((ignore (flush s)).0 ≡ ok tt) × ((ignore (flush s)).1.written ≡ s.written)
  unfolding ignore flush
  ignore-flush s = go s.flushes
    where
      go :
          (fs : List (Option IoError))
          → ((ignore (flush_with fs s)).0 ≡ ok tt)
            × ((ignore (flush_with fs s)).1.written ≡ s.written)
      go [] = unfold flush_with ignore in (refl, refl)
      go (none ∷ fs) = unfold flush_with ignore in (refl, refl)
      go (some x ∷ fs) = unfold flush_with ignore from_io in (refl, refl)

  abbrev flush_twice : Sock → Fallible (Unit {0}) × Sock
  flush_twice t = after (ignore (flush t)).0 (ignore (flush t)).1 (λ _ s'. ignore (flush s'))

  flush_twice-quiet :
      (t : Sock) → ((flush_twice t).0 ≡ ok tt) × ((flush_twice t).1.written ≡ t.written)
  unfolding after
  flush_twice-quiet t =
      rw (ignore-flush t).0 ((ignore-flush _).0, (ignore-flush _).1 ∙ (ignore-flush t).1)

  finish_session-Reported :
      (utf8_text : Bytes → Bytes) (p : Fallible (Unit {0}) × Sock)
      → Reported utf8_text p (finish_session f tables e utf8_text p)
  unfolding finish_session after ignore
  finish_session-Reported utf8_text (ok u, s) = ignore-flush s
  finish_session-Reported utf8_text (panic, s) = refl
  finish_session-Reported utf8_text (err x, s) =
      unfold on_error in
      rw (write_message-sent e (report x) s) (
        let (q0, q1) = flush_twice-quiet (sent (report x) s) in
        (q0, q1 ∙ ap (λ t. s.written ++ t) (sym (append-nil _))))
    where
      report : AnyError → Message
      report x =
          error_response (new_error_response severity_fatal (errcode x) (display_error utf8_text x))

  -- Whatever the client sends, and whichever flushes fail, `do_postgres_main` and `postgres_main`
  -- end. An error of the first is reported by one `ErrorResponse` of level FATAL with its code
  -- and text, and a success by nothing; neither makes `postgres_main` fail. A panic goes on.
  pub postgres_main_ends :
      (utf8_text : Bytes → Bytes) (order : Assoc GucIdx) (g : GucState f.Real) (s : Sock)
      → (p r : Fallible (Unit {0}) × Sock) × (do_postgres_main f tables e order g s ≡ some p)
        × (postgres_main f tables e utf8_text order g s ≡ some r)
        × Reported utf8_text p r
  unfolding postgres_main
  postgres_main_ends utf8_text order g s =
      let (p, eq) = do_postgres_main_ends order g s in
      (
        p,
        finish_session f tables e utf8_text p,
        eq,
        rw eq (unfold finish_all in refl),
        finish_session-Reported utf8_text p,
      )
