-- ===== src/Urings.antt =====
-- lib.rs: `Urings`, the rings that the connections share in turn. A ring is what `Uring::start` of
-- the crate kbio makes of a depth, an idle time and flags, in a state of the system; `setup_iopoll`
-- is a flag of that crate. The counters are of 64 bits and wrap around. A usize has 64 bits.
pub mod RoundRobin
pub mod Start
mod Tests
use kui_ba_db.Base.{
  ℕ, zero, suc, ◌+◌, ◌%◌, ◌^◌, List, [], ◌∷◌, length, get_elem?, Bool, true, false, not, ◌&&◌,
  Option, none, some, Outcome, ok, err, panic, leb, ◌==◌, if◌then◌else◌,
}
use kui_ba_db.Base.Int.{ℤ, to_bits}
use kui_ba_db.Guc.{GucState, get_int}
use kui_ba_db.Guc.Gucdef.{
  iopoll_uring_num, non_iopoll_uring_num, iopoll_uring_depth, non_iopoll_uring_depth,
  iopoll_uring_sq_thread_idle, non_iopoll_uring_sq_thread_idle,
}

module _ (U : Type 0) where
  pub record UringPool : Type 0 where
    pub iopolls : List U
    pub non_iopolls : List U
    pub seq : ℕ
    pub nseq : ℕ

module _ {U : Type 0} where
  -- The ring at `seq` modulo the number of rings; `none` is the panic of a remainder by 0.
  pub pick : List U → ℕ → Option U
  pick us seq = if length us == 0 then none else get_elem? us (seq % length us)

  -- Urings::non_iopoll. Its assertion fails only where the remainder panics, too.
  pub non_iopoll : UringPool U → Option U × UringPool U
  non_iopoll u = (pick u.non_iopolls u.nseq, record u { nseq = (u.nseq + 1) % 2 ^ 64 })

  -- Urings::iopoll
  pub iopoll : UringPool U → Option U × UringPool U
  iopoll u =
      if length u.iopolls == 0
      then non_iopoll u
      else (pick u.iopolls u.seq, record u { seq = (u.seq + 1) % 2 ^ 64 })

module _ {U W E : Type 0} (start : ℕ → ℕ → ℕ → W → Outcome E U × W) (setup_iopoll : ℕ) where
  -- A ring that was started goes in front of those that follow.
  pub collect : Outcome E U × W → Outcome E (List U) × W → Outcome E (List U) × W
  collect (ok u, w) (ok us, w') = (ok (u ∷ us), w')
  collect (ok u, w) (err e, w') = (err e, w')
  collect (ok u, w) (panic, w') = (panic, w')
  collect (err e, w) rest = (err e, w)
  collect (panic, w) rest = (panic, w)

  -- The loops of Urings::new.
  pub start_all : ℕ → ℕ → ℕ → ℕ → W → Outcome E (List U) × W
  start_all zero depth idle flags w = (ok [], w)
  start_all (suc n) depth idle flags w =
      let first = start depth idle flags w in collect first (start_all n depth idle flags first.1)

  -- `Vec::with_capacity(n)` panics on a capacity that no memory has; a negative number as usize is
  -- one.
  pub start_vec : ℕ → ℕ → ℕ → ℕ → W → Outcome E (List U) × W
  start_vec n depth idle flags w =
      if leb (2 ^ 63) n then (panic, w) else start_all n depth idle flags w

  pub pool_of : List U → Outcome E (List U) × W → Outcome E (UringPool U) × W
  pool_of iopolls (ok nious, w) =
      (ok (record { iopolls = iopolls; non_iopolls = nious; seq = 0; nseq = 0 }), w)
  pool_of iopolls (err e, w) = (err e, w)
  pool_of iopolls (panic, w) = (panic, w)

  -- The two vectors, one after the other.
  pub start_both :
      (W → Outcome E (List U) × W) → Outcome E (List U) × W → Outcome E (UringPool U) × W
  start_both next (ok iourings, w) = pool_of iourings (next w)
  start_both next (err e, w) = (err e, w)
  start_both next (panic, w) = (panic, w)

  -- A variable as usize and as u32; the index is inside the array.
  pub int_as : {R : Type 0} → ℕ → GucState R → ℕ → Option ℕ
  int_as width gucstate i = elim (get_int gucstate i) [
    | none ↦ none
    | some v ↦ some (to_bits width v)
  ]

  pub start_pool :
      Bool
      → Option ℕ
      → Option ℕ
      → Option ℕ
      → Option ℕ
      → Option ℕ
      → Option ℕ
      → W
      → Outcome E (UringPool U) × W
  start_pool debug (some num) (some depth) (some idle) (some nnum) (some ndepth) (some nidle) w =
      if debug && nnum == 0
      then (panic, w)
      else start_both (start_vec nnum ndepth nidle 0) (start_vec num depth idle setup_iopoll w)
  start_pool debug _ _ _ _ _ _ w = (panic, w)

  -- Urings::new; `debug` says whether debug assertions are compiled in.
  pub new_urings : {R : Type 0} → Bool → GucState R → W → Outcome E (UringPool U) × W
  new_urings debug gucstate w =
      start_pool debug (int_as (2 ^ 64) gucstate iopoll_uring_num)
        (int_as (2 ^ 32) gucstate iopoll_uring_depth)
        (int_as (2 ^ 32) gucstate iopoll_uring_sq_thread_idle)
        (int_as (2 ^ 64) gucstate non_iopoll_uring_num)
        (int_as (2 ^ 32) gucstate non_iopoll_uring_depth)
        (int_as (2 ^ 32) gucstate non_iopoll_uring_sq_thread_idle) w
