-- ===== src/Process.antt =====
-- lib.rs (`init`, `GlobalState`) and bin/kuiba/main.rs: how the process starts. What the system
-- answers is given: whether the directory is there, what the file of the configuration holds, how
-- the runtime is built, how the socket is bound and what each accept returns. A usize has 64 bits.
pub mod Boot
mod Tests
use kui_ba_db.Base.{
  ℕ, ◌^◌, List, [], ◌∷◌, Bool, Option, none, some, Outcome, ok, err, panic, ◌>>=◌, ltb,
  if◌then◌else◌,
}
use kui_ba_db.Base.Int.{ℤ, to_bits}
use kui_ba_db.Common.{Yaml, Float}
use kui_ba_db.Guc.{GucState, GucTables, World, get_int}
use kui_ba_db.Guc.Gucdef.{
  port, tokio_max_blocking_threads, tokio_thread_keep_alive, tokio_thread_stack_size,
  tokio_worker_threads,
}
use kui_ba_db.Guc.Load.{load}
use kui_ba_db.Utils.Err.{Fallible}
use kui_ba_db.Protocol.Read.{IoResult}
use kui_ba_db.Session.{from_io}
use kui_ba_db.Urings.{UringPool, non_iopoll, new_urings}

-- What `new_runtime` asks of the runtime; the time is in seconds.
pub record RuntimeConf : Type 0 where
  pub max_blocking_threads : ℕ
  pub keep_alive : ℕ
  pub stack_size : ℕ
  pub worker_threads : Option ℕ

pub record GlobalState (R U : Type 0) : Type 0 where
  pub gucstate : GucState R
  pub urings : UringPool U

-- What the process does: the port that it listens on, the ring that accepts, and the connections
-- that sessions are spawned for.
pub record Served (U C : Type 0) : Type 0 where
  pub port : ℕ
  pub ring : U
  pub spawned : List C

-- `as` of a variable.
as_width : ℕ → Option ℤ → Option ℕ
as_width width none = none
as_width width (some v) = some (to_bits width v)

runtime_of : Option ℕ → Option ℕ → Option ℕ → Option ℕ → Option RuntimeConf
runtime_of (some blocking) (some alive) (some stack) (some threads) = some (record {
  max_blocking_threads = blocking;
  keep_alive = alive;
  stack_size = stack;
  worker_threads = if ltb 0 threads then some threads else none;
})
runtime_of _ _ _ _ = none

-- new_runtime, up to the building.
pub new_runtime : {R : Type 0} → GucState R → Option RuntimeConf
new_runtime gucstate =
    runtime_of (as_width (2 ^ 64) (get_int gucstate tokio_max_blocking_threads))
      (as_width (2 ^ 64) (get_int gucstate tokio_thread_keep_alive))
      (as_width (2 ^ 64) (get_int gucstate tokio_thread_stack_size))
      (as_width (2 ^ 64) (get_int gucstate tokio_worker_threads))

-- init, behind `init_log`.
pub init :
    (f : Float)
    → GucTables f.Real
    → IoResult (Unit {0})
    → Fallible (List Yaml)
    → World f.Real
    → Fallible (World f.Real)
init f tables chdir docs w = do _ ← from_io chdir; load f tables w docs

-- The loop of do_main over what accept returns: an error is logged.
pub accept_loop : {C : Type 0} → List (IoResult C) → List C
accept_loop [] = []
accept_loop (ok conn ∷ rs) = conn ∷ accept_loop rs
accept_loop (_ ∷ rs) = accept_loop rs

serve : {U C : Type 0} → List (IoResult C) → Option ℕ → Option U → Option (Served U C)
serve accepts (some p) (some ring) =
    some (record { port = p; ring = ring; spawned = accept_loop accepts })
serve accepts _ _ = none

-- The listener: `bind` says whether the port can be bound.
listen :
    {R U C : Type 0}
    → (ℕ → Bool)
    → List (IoResult C)
    → Option ℕ
    → GlobalState R U
    → Option (Served U C)
listen bind accepts none gstate = none
listen bind accepts (some p) gstate =
    if bind p then serve accepts (some p) (non_iopoll gstate.urings).0 else none

serve_global :
    {R U W E C : Type 0}
    → (ℕ → Bool)
    → List (IoResult C)
    → Outcome E (GlobalState R U) × W
    → Option (Served U C)
serve_global bind accepts (ok gstate, w) =
    listen bind accepts (as_width (2 ^ 16) (get_int gstate.gucstate port)) gstate
serve_global bind accepts _ = none

built :
    {U C : Type 0}
    → Option RuntimeConf
    → (RuntimeConf → Bool)
    → Option (Served U C)
    → Option (RuntimeConf × Served U C)
built none build served = none
built (some conf) build none = none
built (some conf) build (some served) = if build conf then some (conf, served) else none

module _ {U W E : Type 0} (start : ℕ → ℕ → ℕ → W → Outcome E U × W) (setup_iopoll : ℕ) where
  global_of :
      {R : Type 0} → GucState R → Outcome E (UringPool U) × W → Outcome E (GlobalState R U) × W
  global_of gucstate (ok urings, w) = (ok (record { gucstate = gucstate; urings = urings }), w)
  global_of gucstate (err e, w) = (err e, w)
  global_of gucstate (panic, w) = (panic, w)

  -- GlobalState::new
  pub new_global_state : {R : Type 0} → Bool → GucState R → W → Outcome E (GlobalState R U) × W
  new_global_state debug gucstate w =
      global_of gucstate (new_urings start setup_iopoll debug gucstate w)

  -- do_main; `none` is a panic of `unwrap`.
  pub do_main :
      {R C : Type 0} → Bool → (ℕ → Bool) → List (IoResult C) → GucState R → W → Option (Served U C)
  do_main debug bind accepts gucstate w =
      serve_global bind accepts (new_global_state debug gucstate w)

  run_main :
      {R C : Type 0}
      → Bool
      → (RuntimeConf → Bool)
      → (ℕ → Bool)
      → List (IoResult C)
      → Fallible (World R)
      → W
      → Option (RuntimeConf × Served U C)
  run_main debug build bind accepts (ok g) w =
      built (new_runtime g.gucstate) build (do_main debug bind accepts g.gucstate w)
  run_main debug build bind accepts _ w = none

  -- main, behind the command line; `build` says whether the runtime can be built.
  pub main :
      {C : Type 0}
      → (f : Float) → GucTables f.Real
      → Bool
      → (RuntimeConf → Bool)
      → (ℕ → Bool)
      → List (IoResult C)
      → IoResult (Unit {0})
      → Fallible (List Yaml)
      → World f.Real
      → W
      → Option (RuntimeConf × Served U C)
  main f tables debug build bind accepts chdir docs boot w =
      run_main debug build bind accepts (init f tables chdir docs boot) w
