-- ===== src/Urings/Start.antt =====
-- lib.rs: `Urings::new` and the rings that it leaves to the connections.
use kui_ba_db.Base.{
  ℕ, zero, suc, ◌%◌, ◌^◌, ◌<◌, ◌≡◌, refl, ap, ◌∙◌, arith, List, [], ◌∷◌, length, get_elem?-inside,
  Bool, true, false, ◌&&◌, Option, none, some, Outcome, ok, leb, ◌==◌,
}
use kui_ba_db.Base.Int.{ℤ, pos, to_bits}
use kui_ba_db.Guc.{GucState, get_int}
use kui_ba_db.Guc.Gucdef.{
  iopoll_uring_num, non_iopoll_uring_num, iopoll_uring_depth, non_iopoll_uring_depth,
  iopoll_uring_sq_thread_idle, non_iopoll_uring_sq_thread_idle,
}
use native.Mathlib.Nat.{mod-lt, mod-eq_of_lt}
use kui_ba_db.Urings.{
  UringPool, pick, non_iopoll, collect, start_all, start_vec, pool_of, start_both, int_as,
  start_pool, new_urings,
}
use kui_ba_db.Urings.RoundRobin.{after_calls}

and_false : (b : Bool) → (b && false) ≡ false
and_false true = refl
and_false false = refl

module _ {U : Type 0} where
  pick-some : (us : List U) (seq : ℕ) → 0 < length us → (u : U) × pick us seq ≡ some u
  unfolding pick
  pick-some us seq h =
      let full : (length us == 0) ≡ false = ground arith in
      let (u, e) = get_elem?-inside us (seq % length us) (mod-lt seq h) in (u, rw full e)

  calls-same : (u : UringPool U) (j : ℕ) → (after_calls j u).non_iopolls ≡ u.non_iopolls
  unfolding after_calls non_iopoll
  calls-same u zero = refl
  calls-same u (suc j) = calls-same u j

  call-some :
      (u : UringPool U) (j : ℕ)
      → 0 < length u.non_iopolls
      → (ring : U) × (non_iopoll (after_calls j u)).0 ≡ some ring
  unfolding non_iopoll
  call-some u j h =
      pick-some (after_calls j u).non_iopolls (after_calls j u).nseq (rw (calls-same u j) h)

module _ {U W E : Type 0} (start : ℕ → ℕ → ℕ → W → Outcome E U × W) (setup_iopoll : ℕ) where
  -- Every ring that is asked for starts.
  abbrev pub Starts : Type 0
  Starts =
      (depth idle flags : ℕ) (w : W) → (u : U) × (w' : W) × (start depth idle flags w ≡ (ok u, w'))

  module _ (starts : Starts) where
    start_all-length :
        (n depth idle flags : ℕ) (w : W)
        → (us : List U) × (w' : W) × (start_all start setup_iopoll n depth idle flags w
            ≡ (ok us, w'))
          × (length us ≡ n)
    unfolding start_all collect
    start_all-length zero depth idle flags w = ([], w, refl, refl)
    start_all-length (suc n) depth idle flags w =
        let (u, w1, e) = starts depth idle flags w in
        let (us, w2, es, l) = start_all-length n depth idle flags w1 in
        (u ∷ us, w2, rw (e, es) refl, ap suc l)

    start_vec-length :
        (n depth idle flags : ℕ) (w : W)
        → n < 2 ^ 63
        → (us : List U) × (w' : W) × (start_vec start setup_iopoll n depth idle flags w
            ≡ (ok us, w'))
          × (length us ≡ n)
    unfolding start_vec
    start_vec-length n depth idle flags w h =
        let small : leb (2 ^ 63) n ≡ false = ground arith in
        let (us, w', e, l) = start_all-length n depth idle flags w in (us, w', rw small e, l)

    int_as-some :
        {R : Type 0} (width : ℕ) (g : GucState R) (i : ℕ) (v : ℤ)
        → get_int g i ≡ some v
        → int_as start setup_iopoll width g i ≡ some (to_bits width v)
    unfolding int_as
    int_as-some width g i v e =
        ap (λ o. elim o as (λ _. Option ℕ) [ none ↦ none | some x ↦ some (to_bits width x) ]) e

    int_as-pos :
        {R : Type 0} (width : ℕ) (g : GucState R) (i n : ℕ)
        → get_int g i ≡ some (pos n)
        → n < width
        → int_as start setup_iopoll width g i ≡ some n
    int_as-pos width g i n e h = int_as-some width g i (pos n) e ∙ ap some (mod-eq_of_lt h)

    -- Where the two numbers of rings are not negative and below 2^63, the second one is not zero, the
    -- other four variables have any value, and every ring that is asked for starts: Urings::new returns as many
    -- rings as the variables say, and non_iopoll returns a ring at every later call.
    pub new_urings_total :
        {R : Type 0} (debug : Bool) (g : GucState R) (w : W) (n nn : ℕ)
        (depth idle ndepth nidle : ℤ)
        → get_int g iopoll_uring_num ≡ some (pos n)
        → get_int g non_iopoll_uring_num ≡ some (pos nn)
        → get_int g iopoll_uring_depth ≡ some depth
        → get_int g iopoll_uring_sq_thread_idle ≡ some idle
        → get_int g non_iopoll_uring_depth ≡ some ndepth
        → get_int g non_iopoll_uring_sq_thread_idle ≡ some nidle
        → n < 2 ^ 63
        → 0 < nn
        → nn < 2 ^ 63
        → (pool : UringPool U) × (w' : W) × (new_urings start setup_iopoll debug g w
            ≡ (ok pool, w'))
          × (length pool.iopolls ≡ n)
          × (length pool.non_iopolls ≡ nn)
          × ((j : ℕ) → (ring : U) × ((non_iopoll (after_calls j pool)).0 ≡ some ring))
    unfolding new_urings start_pool start_both pool_of
    new_urings_total debug g w n nn depth idle ndepth nidle en enn ed ei end eni hn h0 hnn =
        let (us, w1, e1, l1) =
          start_vec-length n (to_bits (2 ^ 32) depth) (to_bits (2 ^ 32) idle) setup_iopoll w hn in
        let (nus, w2, e2, l2) =
          start_vec-length nn (to_bits (2 ^ 32) ndepth) (to_bits (2 ^ 32) nidle) 0 w1 hnn in
        let pool : UringPool U = record { iopolls = us; non_iopolls = nus; seq = 0; nseq = 0 } in
        let some_ring : (nn == 0) ≡ false = ground arith in
        (
          pool,
          w2,
          rw
              (
                int_as-pos (2 ^ 64) g iopoll_uring_num n en (omega arith),
                int_as-pos (2 ^ 64) g non_iopoll_uring_num nn enn (omega arith),
                int_as-some (2 ^ 32) g iopoll_uring_depth depth ed,
                int_as-some (2 ^ 32) g iopoll_uring_sq_thread_idle idle ei,
                int_as-some (2 ^ 32) g non_iopoll_uring_depth ndepth end,
                int_as-some (2 ^ 32) g non_iopoll_uring_sq_thread_idle nidle eni,
                some_ring,
                and_false debug,
                e1,
                e2,
              )
              refl,
          l1,
          l2,
          λ j. call-some pool j (rw l2 h0),
        )
