-- ===== src/Session/Serve/Output/Spec.antt =====
-- lib.rs: the messages of a session as bytes, and the ways in which a round and the loop end.
use kui_ba_db.Base.{
  ◌≡◌, refl, sym, ap, ◌∙◌, Bytes, List, [], ◌∷◌, ◌++◌, append_assoc, Bool, true, false, Option,
  some, ok, err, panic,
}
use kui_ba_db.Base.{◌≢◌, ◌⊎◌}
use kui_ba_db.Base.Int.{ℤ, pos, negsuc}
use kui_ba_db.Base.Text.{codes}
use kui_ba_db.Utils.Ser.{Endian}
use kui_ba_db.Utils.Err.{IoError, AnyError, Fallible}
use kui_ba_db.Protocol.Message.{XactStatus, Message, command_complete, ready_for_query}
use kui_ba_db.Protocol.Startup.{deserialize_query}
use kui_ba_db.Protocol.Serialize.Frame.{frame, msg_type, payload, serialize-frame}
use kui_ba_db.Protocol.Read.{InStream, read_message}
use kui_ba_db.Session.{Sock, send_buffer, write_message}

-- The bytes of messages, one frame after the other.
abbrev pub wire : List Message → Bytes
wire [] = []
wire (m ∷ ms) = frame (msg_type m) (payload m) ++ wire ms

pub wire-append : (ms ns : List Message) → wire (ms ++ ns) ≡ wire ms ++ wire ns
wire-append [] ns = refl
wire-append (m ∷ ms) ns =
    rw (wire-append ms ns) (sym (append_assoc (frame (msg_type m) (payload m)) (wire ms) (wire ns)))

-- Messages written one batch after the other.
pub wire-join :
    (before : Bytes) {between last : Bytes} (ms ns : List Message)
    → between ≡ before ++ wire ms
    → last ≡ between ++ wire ns
    → last ≡ before ++ wire (ms ++ ns)
wire-join before ms ns h g =
    g
    ∙ ap (λ b. b ++ wire ns) h
    ∙ append_assoc before (wire ms) (wire ns)
    ∙ ap (λ t. before ++ t) (sym (wire-append ms ns))

-- The connection after a message: only its buffer and what was written changed.
abbrev pub sent : Message → Sock → Sock
sent m s = record s {
  serbuf = frame (msg_type m) (payload m);
  written = s.written ++ frame (msg_type m) (payload m);
}

pub write_message-sent :
    (e : Endian) (m : Message) (s : Sock) → write_message e m s ≡ (ok tt, sent m s)
unfolding write_message send_buffer
write_message-sent e m s = rw (serialize-frame e m s.serbuf) refl

abbrev pub ready : Message
ready = ready_for_query (record { status = XactStatus.not_in_block })

abbrev pub hello : Message
hello = command_complete (record { tag = codes "HELLOWORLD" })

-- The flushes that are left after one.
abbrev pub later : List (Option IoError) → List (Option IoError)
later [] = []
later (o ∷ fs) = fs

-- Whether the flush that comes next goes through.
abbrev pub flush_ok : List (Option IoError) → Bool
flush_ok (some x ∷ fs) = false
flush_ok _ = true

-- Why a round stops, on this input and with these flushes: the flush fails; or else, the message
-- read is Terminate or has the type byte 0xFF, which the code takes for the end of the input; no
-- message is read; a message is of another type than Query; the body of a Query is no query; the
-- length field of the message is below 4.
pub data Stopped (input : InStream) (flushes : List (Option IoError)) : Fallible Bool → Type 0 where
  over :
      (t : ℤ) (body : Bytes) (rest : InStream)
      → flush_ok flushes ≡ true
      → read_message input ≡ ok ((t, body), rest)
      → (t ≡ pos b'X') ⊎ (t ≡ negsuc 0)
      → Stopped input flushes (ok false)
  not_flushed :
      {x : AnyError} (e : IoError) (fs : List (Option IoError))
      → flushes ≡ some e ∷ fs
      → Stopped input flushes (err x)
  not_read :
      {x : AnyError} (e : IoError)
      → flush_ok flushes ≡ true
      → read_message input ≡ err e
      → Stopped input flushes (err x)
  unexpected :
      {x : AnyError} (t : ℤ) (body : Bytes) (rest : InStream)
      → flush_ok flushes ≡ true
      → read_message input ≡ ok ((t, body), rest)
      → t ≢ pos b'X'
      → t ≢ negsuc 0
      → t ≢ pos b'Q'
      → Stopped input flushes (err x)
  no_query :
      {x : AnyError} (y : AnyError) (body : Bytes) (rest : InStream)
      → flush_ok flushes ≡ true
      → read_message input ≡ ok ((pos b'Q', body), rest)
      → deserialize_query body ≡ err y
      → Stopped input flushes (err x)
  bad_length : flush_ok flushes ≡ true → read_message input ≡ panic → Stopped input flushes panic

-- What a round that began at `s` may leave: it goes on after a Query message whose body is a query,
-- which it has answered, with the input behind the message and the flush gone through; otherwise it stops for one of the
-- reasons, and has announced itself ready.
abbrev pub RoundSpec : Sock → Fallible Bool × Sock → Type 0
RoundSpec s (ok true, s') =
    (body query : Bytes) × (flush_ok s.flushes ≡ true)
    × (read_message s.input ≡ ok ((pos b'Q', body), s'.input))
    × (deserialize_query body ≡ ok query)
    × (s'.flushes ≡ later s.flushes)
    × (s'.written ≡ s.written ++ wire (ready ∷ hello ∷ []))
RoundSpec s (ok false, s') =
    Stopped s.input s.flushes (ok false) × (s'.written ≡ s.written ++ wire (ready ∷ []))
RoundSpec s (err x, s') =
    Stopped s.input s.flushes (err x) × (s'.written ≡ s.written ++ wire (ready ∷ []))
RoundSpec s (panic, s') =
    Stopped s.input s.flushes panic × (s'.written ≡ s.written ++ wire (ready ∷ []))

-- How a run of rounds on this input and with these flushes ends, and the messages that it writes
-- until then: an answer for each query that it reads, one after the other, up to the message or
-- the failure at which it stops.
pub data Answers
    : InStream → List (Option IoError) → Fallible (Unit {0}) → List Message → Type 0 where
  left :
      {i : InStream} {fs : List (Option IoError)}
      → Stopped i fs (ok false)
      → Answers i fs (ok tt) (ready ∷ [])
  failed :
      {i : InStream} {fs : List (Option IoError)} {x : AnyError}
      → Stopped i fs (err x)
      → Answers i fs (err x) (ready ∷ [])
  panicked :
      {i : InStream} {fs : List (Option IoError)}
      → Stopped i fs panic
      → Answers i fs panic (ready ∷ [])
  answered :
      {i rest : InStream} {fs : List (Option IoError)} {r : Fallible (Unit {0})} {ms : List Message}
      {body query : Bytes}
      → flush_ok fs ≡ true
      → read_message i ≡ ok ((pos b'Q', body), rest)
      → deserialize_query body ≡ ok query
      → Answers rest (later fs) r ms
      → Answers i fs r (ready ∷ hello ∷ ms)

pub record RoundsEnd (r : Option (Fallible (Unit {0}) × Sock)) (s : Sock) : Type 0 where
  pub result : Fallible (Unit {0})
  pub last : Sock
  pub messages : List Message
  pub ends : r ≡ some (result, last)
  pub conform : Answers s.input s.flushes result messages
  pub output : last.written ≡ s.written ++ wire messages
