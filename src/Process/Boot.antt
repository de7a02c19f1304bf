-- ===== src/Process/Boot.antt =====
-- bin/kuiba/main.rs and lib.rs: a configuration file that loads starts the process.
use kui_ba_db.Base.{
  get_elem?-inside, ℕ, ◌^◌, ◌<◌, ◌≡◌, refl, arith, List, ◌∷◌, length, Bool, true, false, Bool-cases,
  inl, inr, ◌&&◌, [], none, some, Outcome, ok, err, panic, ltb, if◌then◌else◌,
}
use kui_ba_db.Base.Int.{ℤ, pos, to_bits}
use kui_ba_db.Common.{Yaml, Float}
use kui_ba_db.Utils.Err.{IoError, Fallible}
use kui_ba_db.Guc.{Str, GucState, LogState, World, get_int}
use kui_ba_db.Guc.Gucdef.{
  tables, port, iopoll_uring_num, non_iopoll_uring_num, iopoll_uring_depth, non_iopoll_uring_depth,
  iopoll_uring_sq_thread_idle, non_iopoll_uring_sq_thread_idle, tokio_max_blocking_threads,
  tokio_thread_keep_alive, tokio_thread_stack_size, tokio_worker_threads,
}
use kui_ba_db.Guc.Load.{load}
use kui_ba_db.Guc.Load.Total.{booted}
use kui_ba_db.Guc.Load.Loaded.{load-LoadInv}
use kui_ba_db.Protocol.Read.{IoResult}
use kui_ba_db.Session.{from_io}
use kui_ba_db.Urings.RoundRobin.{after_calls}
use kui_ba_db.Urings.Start.{Starts, new_urings_total}
use kui_ba_db.Process.{
  RuntimeConf, Served, as_width, runtime_of, new_runtime, init, accept_loop, global_of,
  new_global_state, serve, listen, serve_global, do_main, built, run_main, main,
}

abbrev pub runtime_conf : ℤ → ℤ → ℤ → ℤ → RuntimeConf
runtime_conf blocking alive stack threads = record {
  max_blocking_threads = to_bits (2 ^ 64) blocking;
  keep_alive = to_bits (2 ^ 64) alive;
  stack_size = to_bits (2 ^ 64) stack;
  worker_threads =
      if ltb 0 (to_bits (2 ^ 64) threads) then some (to_bits (2 ^ 64) threads) else none;
}

-- The connections that are accepted, in order; a failed accept leaves none and ends nothing.
pub data Accepted {C : Type 0} : List (IoResult C) → List C → Type 0 where
  no_more : Accepted [] []
  accepted :
      {rs : List (IoResult C)} {cs : List C} (c : C)
      → Accepted rs cs
      → Accepted (ok c ∷ rs) (c ∷ cs)
  failed :
      {rs : List (IoResult C)} {cs : List C} (x : IoError)
      → Accepted rs cs
      → Accepted (err x ∷ rs) cs
  lost : {rs : List (IoResult C)} {cs : List C} → Accepted rs cs → Accepted (panic ∷ rs) cs

accept_loop-Accepted : {C : Type 0} (rs : List (IoResult C)) → Accepted rs (accept_loop rs)
unfolding accept_loop
accept_loop-Accepted [] = no_more
accept_loop-Accepted (ok c ∷ rs) = accepted c (accept_loop-Accepted rs)
accept_loop-Accepted (err x ∷ rs) = failed x (accept_loop-Accepted rs)
accept_loop-Accepted (panic ∷ rs) = lost (accept_loop-Accepted rs)

-- Every int variable has a value.
int-some :
    {R : Type 0} (g : GucState R) (i : ℕ)
    → length g.vals.int_vals ≡ 24
    → i < 24
    → (v : ℤ) × get_int g i ≡ some v
unfolding get_int
int-some g i l h = get_elem?-inside g.vals.int_vals i (rw l h)

module _ {U W E : Type 0} (start : ℕ → ℕ → ℕ → W → Outcome E U × W) (setup_iopoll : ℕ)
    (starts : Starts start setup_iopoll) where
  do_main-total :
      {R C : Type 0} (debug : Bool) (bind : ℕ → Bool) (accepts : List (IoResult C)) (g : GucState R)
      (w : W) (n nn : ℕ) (p : ℤ)
      → length g.vals.int_vals ≡ 24
      → get_int g iopoll_uring_num ≡ some (pos n)
      → get_int g non_iopoll_uring_num ≡ some (pos nn)
      → get_int g port ≡ some p
      → n < 2 ^ 63
      → 0 < nn
      → nn < 2 ^ 63
      → (ring : U) × (do_main start setup_iopoll debug bind accepts g w ≡ (
          if bind (to_bits (2 ^ 16) p)
          then some
              (record { port = to_bits (2 ^ 16) p; ring = ring; spawned = accept_loop accepts })
          else none))
  unfolding after_calls do_main new_global_state global_of serve_global listen serve as_width
  do_main-total debug bind accepts g w n nn p l en enn ep hn h0 hnn =
      let (depth, ed) = int-some g iopoll_uring_depth l (omega arith) in
      let (idle, ei) = int-some g iopoll_uring_sq_thread_idle l (omega arith) in
      let (ndepth, end) = int-some g non_iopoll_uring_depth l (omega arith) in
      let (nidle, eni) = int-some g non_iopoll_uring_sq_thread_idle l (omega arith) in
      let (pool, w', e, li, ln, rings) =
        new_urings_total start setup_iopoll starts debug g w n nn depth idle ndepth nidle en enn ed
          ei end eni hn h0 hnn in
      let (ring, er) = rings 0 in
      (
        ring,
        elim (Bool-cases (bind (to_bits (2 ^ 16) p))) [
          | inl yes_bind ↦ rw (e, ep, yes_bind, er) refl
          | inr no_bind ↦ rw (e, ep, no_bind) refl
        ],
      )

  built-conf :
      {C : Type 0} (build : RuntimeConf → Bool) (conf : RuntimeConf) (bound : Bool)
      (served : Served U C)
      → built (some conf) build (if bound then some served else none)
        ≡ (if build conf && bound then some (conf, served) else none)
  unfolding built
  built-conf build conf false served = ground arith
  built-conf build conf true served = ground arith

  -- The file kuiba.conf loads, whatever it holds, to a world `g`, in which the port is `p` and the
  -- tokio variables have the given values, the two numbers of rings are not negative and below
  -- 2^63, and the second one is not zero; every ring starts. Then main builds a runtime of these
  -- values as usize, with the worker threads left to tokio where that is zero, and listens on the
  -- low 16 bits of the port, and a session is spawned for every connection that is accepted, in
  -- order, whatever accepts fail. It panics exactly if the runtime cannot be built or the port not
  -- bound; and where the directory is not there, it panics before all this.
  pub main-load :
      (f : Float) (reload : Str → Bool) (log : LogState) (docs : Fallible (List Yaml))
      (g : World f.Real) {C : Type 0} (debug : Bool) (build : RuntimeConf → Bool) (bind : ℕ → Bool)
      (accepts : List (IoResult C)) (w : W) (n nn : ℕ) (p blocking alive stack threads : ℤ)
      (missing : IoError)
      → load f (tables f reload) (booted f log) docs ≡ ok g
      → get_int g.gucstate iopoll_uring_num ≡ some (pos n)
      → get_int g.gucstate non_iopoll_uring_num ≡ some (pos nn)
      → get_int g.gucstate port ≡ some p
      → get_int g.gucstate tokio_max_blocking_threads ≡ some blocking
      → get_int g.gucstate tokio_thread_keep_alive ≡ some alive
      → get_int g.gucstate tokio_thread_stack_size ≡ some stack
      → get_int g.gucstate tokio_worker_threads ≡ some threads
      → n < 2 ^ 63
      → 0 < nn
      → nn < 2 ^ 63
      → (ring : U) × (conns : List C) × Accepted accepts conns
        × (main start setup_iopoll f
              (tables f reload)
              debug
              build
              bind
              accepts
              (ok tt)
              docs
              (booted f log)
              w
            ≡ (if build (runtime_conf blocking alive stack threads) && bind (to_bits (2 ^ 16) p)
                then some (
                  runtime_conf blocking alive stack threads,
                  record { port = to_bits (2 ^ 16) p; ring = ring; spawned = conns },
                )
                else none))
        × (main start setup_iopoll f
              (tables f reload)
              debug
              build
              bind
              accepts
              (err missing)
              docs
              (booted f log)
              w
            ≡ none)
  unfolding from_io main init run_main new_runtime runtime_of as_width
  main-load f reload log docs g debug build bind accepts w n nn p blocking alive stack threads
        missing el en enn ep eb ea es' et hn h0 hnn =
      let l : length g.gucstate.vals.int_vals ≡ 24 = (load-LoadInv f reload log g docs el).n_int in
      let (ring, e) = do_main-total debug bind accepts g.gucstate w n nn p l en enn ep hn h0 hnn in
      (
        ring,
        accept_loop accepts,
        accept_loop-Accepted accepts,
        rw (el, eb, ea, es', et, e)
            (built-conf build (runtime_conf blocking alive stack threads)
              (bind (to_bits (2 ^ 16) p)) _),
        refl,
      )
