-- ===== src/Urings/RoundRobin.antt =====
-- lib.rs: `Urings::non_iopoll`, call by call.
use kui_ba_db.Base.{
  ℕ, zero, suc, ◌+◌, ◌-◌, ◌%◌, ◌^◌, ◌<◌, ◌≤◌, ◌≡◌, refl, sym, ◌∙◌, arith, inl, inr, length,
  get_elem?, false, Bool-cases, leb, leb→le, ◌==◌,
}
use native.Mathlib.Nat.{mod-lt, mod-eq_of_lt, mod-add-mod, add-mod_right}
use kui_ba_db.Urings.{UringPool, pick, non_iopoll}

-- For each position there is a number of steps below the length that leads to it.
reaches : (n len i : ℕ) → i < len → (j : ℕ) × (j < len) × ((n + j) % len ≡ i)
reaches n len i lt =
    let below : n % len < len = mod-lt n (omega arith) in
    elim (Bool-cases (leb (n % len) i)) [
      | inl fwd ↦
          let le : n % len ≤ i = leb→le _ _ fwd in
          let e : n % len + (i - n % len) ≡ i = omega arith in
          (i - n % len, omega arith, sym (mod-add-mod n len (i - n % len)) ∙ rw e (mod-eq_of_lt lt))
      | inr back ↦
          let gt : i < n % len = ground arith in
          let e : n % len + (i + len - n % len) ≡ i + len = omega arith in
          (
            i + len - n % len,
            omega arith,
            sym (mod-add-mod n len (i + len - n % len))
                ∙ rw e (add-mod_right i len ∙ mod-eq_of_lt lt),
          )
    ]

module _ {U : Type 0} where
  -- The pool after some calls of `non_iopoll`.
  unfoldable pub after_calls : ℕ → UringPool U → UringPool U
  after_calls zero u = u
  after_calls (suc j) u = (non_iopoll (after_calls j u)).1

  calls-nseq :
      (u : UringPool U) (j : ℕ)
      → u.nseq + j < 2 ^ 64
      → after_calls j u ≡ record u { nseq = u.nseq + j }
  unfolding after_calls non_iopoll
  calls-nseq u zero h = let z : u.nseq + 0 ≡ u.nseq = omega arith in rw z refl
  calls-nseq u (suc j) h =
      let small : (u.nseq + j + 1) % 2 ^ 64 ≡ u.nseq + suc j = omega arith in
      rw (calls-nseq u j (omega arith)) (rw small refl)

  -- If the counter does not wrap around within as many calls of `non_iopoll` as there are rings,
  -- one of these calls returns any given ring.
  pub non_iopoll-round_robin :
      (u : UringPool U) (i : ℕ)
      → i < length u.non_iopolls
      → u.nseq + length u.non_iopolls < 2 ^ 64
      → (j : ℕ) × (j < length u.non_iopolls)
        × ((non_iopoll (after_calls j u)).0 ≡ get_elem? u.non_iopolls i)
  unfolding non_iopoll
  non_iopoll-round_robin u i lt small =
      let (j, j_lt, at) = reaches u.nseq (length u.non_iopolls) i lt in
      let some_ring : (length u.non_iopolls == 0) ≡ false = ground arith in
      (j, j_lt, rw (calls-nseq u j (omega arith)) (unfold pick in rw (some_ring, at) refl))
