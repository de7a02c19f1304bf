-- ===== src/AsyncIo/Await.antt =====
-- io.rs: a task that polls a read or a write of `Stream` until it is ready.
use kui_ba_db.Base.{ℕ, zero, suc, ◌≡◌, refl, Bool, true, false, Option, none, some, ==_iff}
use mathlib.Core.Option.{map}
use kui_ba_db.Base.Int.{ℤ}
use kui_ba_db.Protocol.Read.{IoResult}
use kui_ba_db.AsyncIo.{
  Poll, pending, ready, Buf, Kbio, ReadBuf, OpFuture, Stream, park, drive, same_buffer, read_ready,
  write_ready, finish_read, poll_read, finish_write, poll_write,
}

-- A task goes on polling (`next`) or has its result.
pub waited {ℓ κ} : {A : Type ℓ} {S : Type κ} → Poll A × S → Option (A × S) → Option (A × S)
waited (pending, s) next = next
waited (ready a, s) next = some (a, s)

module _ (k : Kbio) where
  -- A future of the ring polled to its end, within some number of polls.
  pub run_fut : ℕ → k.Fut → k.World → Option (ℤ × (k.Fut × k.World))
  run_fut zero fut w = none
  run_fut (suc n) fut w = waited (k.poll fut w) (run_fut n (k.poll fut w).1.0 (k.poll fut w).1.1)

  -- The same for the stream's reads and writes.
  pub await_read :
      Bool
      → ℕ
      → Stream k
      → ReadBuf
      → k.World
      → Option (IoResult (Unit {0}) × (Stream k × (ReadBuf × k.World)))
  await_read debug zero s buf w = none
  await_read debug (suc n) s buf w =
      let r = poll_read k debug s buf w in waited r (await_read debug n r.1.0 r.1.1.0 r.1.1.1)

  pub await_write : Bool → ℕ → Stream k → Buf → k.World → Option (IoResult ℕ × (Stream k × k.World))
  await_write debug zero s buf w = none
  await_write debug (suc n) s buf w =
      let r = poll_write k debug s buf w in waited r (await_write debug n r.1.0 buf r.1.1)

  -- The operation in flight, or else the new one.
  abbrev pub current : Option (OpFuture k) → k.Fut → k.Fut
  current none fut = fut
  current (some f) fut = f.fut

  -- What a read leaves when its operation ends.
  abbrev pub read_done :
      Stream k
      → ReadBuf
      → ℤ × (k.Fut × k.World)
      → IoResult (Unit {0}) × (Stream k × (ReadBuf × k.World))
  read_done s buf (res, (fut, w)) =
      let done = read_ready k (k.cqeres2rust res) (k.memory w buf.unfilled) buf in
      (done.0, (record s { read_fut = none }, (done.1, w)))

  abbrev pub write_done : Stream k → ℤ × (k.Fut × k.World) → IoResult ℕ × (Stream k × k.World)
  write_done s (res, (fut, w)) =
      (write_ready k (k.cqeres2rust res), (record s { write_fut = none }, w))

  -- The buffer of the operation that a poll leaves in the slot.
  abbrev kept : Option (OpFuture k) → Buf → Buf
  kept none buf = buf
  kept (some f) buf = f.buf

  drive-park :
      (slot : Option (OpFuture k)) (fut : k.Fut) (buf : Buf) (w : k.World)
      → drive k slot fut buf w ≡ park k (kept slot buf) (k.poll (current slot fut) w)
  unfolding drive
  drive-park none fut buf w = refl
  drive-park (some f) fut buf w = refl

  same_buffer-kept :
      (debug : Bool) (slot : Option (OpFuture k)) (buf : Buf) (fut : k.Fut)
      → same_buffer k debug slot buf ≡ true
      → same_buffer k debug (some (record { fut = fut; buf = kept slot buf })) buf ≡ true
  unfolding same_buffer
  same_buffer-kept debug (some f) buf fut same = same
  same_buffer-kept true none buf fut same =
      rw ((==_iff buf.addr buf.addr).1 refl, (==_iff buf.len buf.len).1 refl) refl
  same_buffer-kept false none buf fut same = refl

  -- One poll of a read, and what the further ones give.
  read_step :
      (debug : Bool) (n : ℕ) (s : Stream k) (buf : ReadBuf)
      → ((s' : Stream k) (w' : k.World)
          → same_buffer k debug s'.read_fut buf.unfilled ≡ true
          → await_read debug n s' buf w'
            ≡ map
                (read_done s' buf)
                (run_fut n (current s'.read_fut (k.recv_fut s'.fd buf.unfilled)) w'))
      → same_buffer k debug s.read_fut buf.unfilled ≡ true
      → (p : Poll ℤ × (k.Fut × k.World))
      → (let r = finish_read k s buf (park k (kept s.read_fut buf.unfilled) p) in
          waited r (await_read debug n r.1.0 r.1.1.0 r.1.1.1))
        ≡ map (read_done s buf) (waited p (run_fut n p.1.0 p.1.1))
  unfolding waited finish_read park
  read_step debug n s buf ih same (pending, (fut, w)) =
      ih (record s { read_fut = some (record { fut = fut; buf = kept s.read_fut buf.unfilled }) }) w
        (same_buffer-kept debug s.read_fut buf.unfilled fut same)
  read_step debug n s buf ih same (ready res, (fut, w)) = refl

  -- A task polls a read with the buffer of the operation in flight, if there is one. However
  -- often it polls, there is one operation of the ring: the one in flight, or else a new one. The
  -- read has its result when that operation is ready, with the bytes that stand in the buffer
  -- then; no read is in flight afterwards, and the other operations are as before.
  pub await_read-run_fut :
      (debug : Bool) (n : ℕ) (s : Stream k) (buf : ReadBuf) (w : k.World)
      → same_buffer k debug s.read_fut buf.unfilled ≡ true
      → await_read debug n s buf w
        ≡ map (read_done s buf) (run_fut n (current s.read_fut (k.recv_fut s.fd buf.unfilled)) w)
  unfolding await_read run_fut poll_read
  await_read-run_fut debug zero s buf w same = refl
  await_read-run_fut debug (suc n) s buf w same = rw same (
      rw (drive-park s.read_fut (k.recv_fut s.fd buf.unfilled) buf.unfilled w)
        (read_step debug n s buf (λ s' w'. await_read-run_fut debug n s' buf w') same (k.poll _ w)))

  write_step :
      (debug : Bool) (n : ℕ) (s : Stream k) (buf : Buf)
      → ((s' : Stream k) (w' : k.World)
          → same_buffer k debug s'.write_fut buf ≡ true
          → await_write debug n s' buf w'
            ≡ map (write_done s') (run_fut n (current s'.write_fut (k.write_fut s'.fd buf)) w'))
      → same_buffer k debug s.write_fut buf ≡ true
      → (p : Poll ℤ × (k.Fut × k.World))
      → (let r = finish_write k s (park k (kept s.write_fut buf) p) in
          waited r (await_write debug n r.1.0 buf r.1.1))
        ≡ map (write_done s) (waited p (run_fut n p.1.0 p.1.1))
  unfolding waited finish_write park
  write_step debug n s buf ih same (pending, (fut, w)) =
      ih (record s { write_fut = some (record { fut = fut; buf = kept s.write_fut buf }) }) w
        (same_buffer-kept debug s.write_fut buf fut same)
  write_step debug n s buf ih same (ready res, (fut, w)) = refl

  -- A task polls a write with the buffer of the operation in flight, if there is one. However
  -- often it polls, there is one operation of the ring, the write has its result when that
  -- operation is ready, no write is in flight afterwards, and the other operations are as before.
  pub await_write-run_fut :
      (debug : Bool) (n : ℕ) (s : Stream k) (buf : Buf) (w : k.World)
      → same_buffer k debug s.write_fut buf ≡ true
      → await_write debug n s buf w
        ≡ map (write_done s) (run_fut n (current s.write_fut (k.write_fut s.fd buf)) w)
  unfolding await_write run_fut poll_write
  await_write-run_fut debug zero s buf w same = refl
  await_write-run_fut debug (suc n) s buf w same = rw same (
      rw (drive-park s.write_fut (k.write_fut s.fd buf) buf w) (
        write_step debug n s buf (λ s' w'. await_write-run_fut debug n s' buf w') same
          (k.poll _ w)))
