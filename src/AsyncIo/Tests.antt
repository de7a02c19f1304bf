-- ===== src/AsyncIo/Tests.antt =====
-- A ring whose operations are ready after some polls.
use kui_ba_db.Base.{ℕ, zero, suc, ◌≡◌, refl, [], true, none, ok}
use mathlib.Core.Option.{map}
use kui_ba_db.Base.Int.{ℤ, pos}
use kui_ba_db.Base.Text.{codes}
use kui_ba_db.AsyncIo.{Poll, pending, ready, Kbio, ReadBuf, Stream, same_buffer}
use kui_ba_db.AsyncIo.Await.{
  run_fut, await_read, await_write, read_done, write_done, await_read-run_fut, await_write-run_fut,
}

-- A future is the number of polls that it still waits for.
abbrev tick : ℕ → ℕ → Poll ℤ × (ℕ × ℕ)
tick zero w = (ready (pos 3), (0, w))
tick (suc n) w = (pending, (n, suc w))

abbrev ring : Kbio
ring = record {
  World = ℕ;
  Fut = ℕ;
  recv_fut = λ fd buf. 2;
  write_fut = λ fd buf. 1;
  writev_fut = λ fd buf. 1;
  shutdown_fut = λ fd. 0;
  poll = tick;
  memory = λ w buf. codes "abcdef";
  cqeres2rust = λ res. ok res;
}

abbrev empty_buf : ReadBuf
empty_buf = record { filled = []; unfilled = record { addr = 4096; len = 8 } }

abbrev stream : Stream ring
stream = record { fd = pos 5; read_fut = none; write_fut = none; shutdown_fut = none }

await_read-run_fut_example :
    await_read ring true 3 stream empty_buf 0
    ≡ map (read_done ring stream empty_buf) (run_fut ring 3 2 0)
unfolding same_buffer
await_read-run_fut_example = await_read-run_fut ring true 3 stream empty_buf 0 refl

await_write-run_fut_example :
    await_write ring true 2 stream empty_buf.unfilled 0
    ≡ map (write_done ring stream) (run_fut ring 2 1 0)
unfolding same_buffer
await_write-run_fut_example = await_write-run_fut ring true 2 stream empty_buf.unfilled 0 refl
