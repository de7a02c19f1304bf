-- ===== src/AsyncIo.antt =====
-- io.rs: the asynchronous stream over a ring of the crate kbio. The ring is a parameter: how it
-- makes an operation, what a poll of one gives, and the memory that it writes. A poll that panics
-- is a ready `panic`.
pub mod Await
mod Tests
use kui_ba_db.Base.{
  ℕ, ◌+◌, ◌-◌, ◌^◌, List, ◌++◌, Bytes, take, Bool, true, false, not, ◌&&◌, ◌||◌, Option, none, some,
  Outcome, ok, err, panic, leb, ◌==◌, if◌then◌else◌,
}
use kui_ba_db.Base.Int.{ℤ, to_bits}
use kui_ba_db.Protocol.Read.{IoResult}

pub data Poll {ℓ} (A : Type ℓ) : Type ℓ where
  pending : Poll A
  ready : A → Poll A

-- A buffer: its address and its length.
pub record Buf : Type 0 where
  pub addr : ℕ
  pub len : ℕ

-- What the code uses of kbio.
pub record Kbio : Type 1 where
  pub World : Type 0
  pub Fut : Type 0
  pub recv_fut : ℤ → Buf → Fut
  pub write_fut : ℤ → Buf → Fut
  pub writev_fut : ℤ → Buf → Fut
  pub shutdown_fut : ℤ → Fut
  pub poll : Fut → World → Poll ℤ × (Fut × World)
  pub memory : World → Buf → Bytes
  pub cqeres2rust : ℤ → IoResult ℤ

-- `ReadBuf`: what was read, and the part of the buffer behind it.
pub record ReadBuf : Type 0 where
  pub filled : Bytes
  pub unfilled : Buf

-- `n as usize`
abbrev pub as_usize : ℤ → ℕ
as_usize n = to_bits (2 ^ 64) n

-- `assume_init(n)` and `advance(n)`, with the bytes that stand in the buffer. Beyond the buffer is
-- a panic here.
pub advance : ℕ → Bytes → ReadBuf → IoResult (Unit {0}) × ReadBuf
advance n bytes buf =
    if leb n buf.unfilled.len
    then (
      ok tt,
      record {
        filled = buf.filled ++ take n bytes;
        unfilled = record { addr = buf.unfilled.addr + n; len = buf.unfilled.len - n };
      },
    )
    else (panic, buf)

module _ (k : Kbio) where
  pub record OpFuture : Type 0 where
    pub fut : k.Fut
    pub buf : Buf

  pub record Stream : Type 0 where
    pub fd : ℤ
    pub read_fut : Option OpFuture
    pub write_fut : Option OpFuture
    pub shutdown_fut : Option OpFuture

  -- Stream::new
  pub new_stream : ℤ → Stream
  new_stream fd = record { fd = fd; read_fut = none; write_fut = none; shutdown_fut = none }

  -- A polled operation is kept until it is ready.
  pub park : Buf → Poll ℤ × (k.Fut × k.World) → Poll ℤ × (Option OpFuture × k.World)
  park buf (pending, (fut, w)) = (pending, (some (record { fut = fut; buf = buf }), w))
  park buf (ready res, (fut, w)) = (ready res, (none, w))

  -- The `match` of the poll functions: the operation in flight is polled, or else the new one.
  pub drive : Option OpFuture → k.Fut → Buf → k.World → Poll ℤ × (Option OpFuture × k.World)
  drive none fut buf w = park buf (k.poll fut w)
  drive (some f) fut buf w = park f.buf (k.poll f.fut w)

  -- The debug assertions; `debug` says whether they are compiled in.
  pub same_buffer : Bool → Option OpFuture → Buf → Bool
  same_buffer debug none buf = true
  same_buffer debug (some f) buf = not debug || (buf.addr == f.buf.addr && buf.len == f.buf.len)

  -- The two functions `on_ready`, for reads and for writes.
  pub read_ready : IoResult ℤ → Bytes → ReadBuf → IoResult (Unit {0}) × ReadBuf
  read_ready (ok n) bytes buf = advance (as_usize n) bytes buf
  read_ready (err e) bytes buf = (err e, buf)
  read_ready panic bytes buf = (panic, buf)

  pub write_ready : IoResult ℤ → IoResult ℕ
  write_ready (ok n) = ok (as_usize n)
  write_ready (err e) = err e
  write_ready panic = panic

  pub shutdown_ready : IoResult ℤ → IoResult (Unit {0})
  shutdown_ready (ok n) = ok tt
  shutdown_ready (err e) = err e
  shutdown_ready panic = panic

  pub finish_read :
      Stream
      → ReadBuf
      → Poll ℤ × (Option OpFuture × k.World)
      → Poll (IoResult (Unit {0})) × (Stream × (ReadBuf × k.World))
  finish_read s buf (pending, (f, w)) = (pending, (record s { read_fut = f }, (buf, w)))
  finish_read s buf (ready res, (f, w)) =
      let done = read_ready (k.cqeres2rust res) (k.memory w buf.unfilled) buf in
      (ready done.0, (record s { read_fut = f }, (done.1, w)))

  pub poll_read :
      Bool
      → Stream
      → ReadBuf
      → k.World
      → Poll (IoResult (Unit {0})) × (Stream × (ReadBuf × k.World))
  poll_read debug s buf w =
      if same_buffer debug s.read_fut buf.unfilled
      then finish_read s buf (drive s.read_fut (k.recv_fut s.fd buf.unfilled) buf.unfilled w)
      else (ready panic, (s, (buf, w)))

  pub finish_write :
      Stream → Poll ℤ × (Option OpFuture × k.World) → Poll (IoResult ℕ) × (Stream × k.World)
  finish_write s (pending, (f, w)) = (pending, (record s { write_fut = f }, w))
  finish_write s (ready res, (f, w)) =
      (ready (write_ready (k.cqeres2rust res)), (record s { write_fut = f }, w))

  pub poll_write : Bool → Stream → Buf → k.World → Poll (IoResult ℕ) × (Stream × k.World)
  poll_write debug s buf w =
      if same_buffer debug s.write_fut buf
      then finish_write s (drive s.write_fut (k.write_fut s.fd buf) buf w)
      else (ready panic, (s, w))

  -- `buf` is the array of the slices.
  pub poll_write_vectored : Bool → Stream → Buf → k.World → Poll (IoResult ℕ) × (Stream × k.World)
  poll_write_vectored debug s buf w =
      if same_buffer debug s.write_fut buf
      then finish_write s (drive s.write_fut (k.writev_fut s.fd buf) buf w)
      else (ready panic, (s, w))

  pub poll_flush : Stream → k.World → Poll (IoResult (Unit {0})) × (Stream × k.World)
  poll_flush s w = (ready (ok tt), (s, w))

  pub finish_shutdown :
      Stream
      → Poll ℤ × (Option OpFuture × k.World)
      → Poll (IoResult (Unit {0})) × (Stream × k.World)
  finish_shutdown s (pending, (f, w)) = (pending, (record s { shutdown_fut = f }, w))
  finish_shutdown s (ready res, (f, w)) =
      (ready (shutdown_ready (k.cqeres2rust res)), (record s { shutdown_fut = f }, w))

  pub poll_shutdown : Stream → k.World → Poll (IoResult (Unit {0})) × (Stream × k.World)
  poll_shutdown s w =
      finish_shutdown s
        (drive s.shutdown_fut (k.shutdown_fut s.fd) (record { addr = 0; len = 0 }) w)

  pub is_write_vectored : Stream → Bool
  is_write_vectored s = true
