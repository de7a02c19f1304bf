-- ===== src/Protocol/Read.antt =====
-- protocol.rs: reading messages from the connection (`read_body`, `read_message`,
-- `read_startup_message`). What the client sends before the connection ends is the stream's
-- `avail`, and `ending` is the error that a read past it gets.
pub mod Frames
use kui_ba_db.Base.{
  ℕ, ◌+◌, ◌-◌, ◌^◌, Bytes, length, take, drop, Outcome, ok, err, panic, ◌>>=◌, ltb, leb,
  if◌then◌else◌,
}
use kui_ba_db.Base.Int.{ℤ, of_bits}
use kui_ba_db.Utils.Ser.{from_be_bytes}
use kui_ba_db.Utils.Err.{IoError}

pub record InStream : Type 0 where
  pub avail : Bytes
  pub ending : IoError

abbrev pub IoResult {ℓ} : Type ℓ → Type ℓ
IoResult A = Outcome IoError A

-- `read_exact` into a buffer of `n` bytes.
pub read_exact : ℕ → InStream → IoResult (Bytes × InStream)
read_exact n s =
    if leb n (length s.avail)
    then ok (take n s.avail, record s { avail = drop n s.avail })
    else err s.ending

-- `AsyncReadExt::read_u32` and `AsyncReadExt::read_i8`
read_u32 : InStream → IoResult (ℕ × InStream)
read_u32 s = do (b, s') ← read_exact 4 s; ok (from_be_bytes b, s')

read_i8 : InStream → IoResult (ℤ × InStream)
read_i8 s = do (b, s') ← read_exact 1 s; ok (of_bits (2 ^ 8) (from_be_bytes b), s')

-- `len as usize - size_of::<u32>()` leaves the range for a length below 4. That is a panic with
-- overflow checks; without them the wrapped length is beyond any capacity, and `reserve` panics.
-- The content read replaces what the caller's vector held.
pub read_body : InStream → IoResult (Bytes × InStream)
read_body s = do (len, s') ← read_u32 s; if ltb len 4 then panic else read_exact (len - 4) s'

pub read_message : InStream → IoResult ((ℤ × Bytes) × InStream)
read_message s = do
  (msgtype, s1) ← read_i8 s
  (content, s2) ← read_body s1
  ok ((msgtype, content), s2)

unfoldable pub read_startup_message : InStream → IoResult (Bytes × InStream)
read_startup_message s = read_body s
