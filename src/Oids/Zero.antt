-- ===== src/Oids/Zero.antt =====
-- oids.rs: the two conversions of `OptOid`, one after the other.
use kui_ba_db.Base.{ℕ, zero, suc, ◌≡◌, refl, none, some, arith}
use kui_ba_db.Oids.{OptOid, OidFits, opt_oid_from_u32, u32_from_opt_oid}

-- Every `OptOid` in range survives the trip through u32, and every number the trip through
-- `OptOid`.
pub opt_oid_u32_inverse :
    (o : OptOid) (n : ℕ)
    → OidFits o
    → (opt_oid_from_u32 (u32_from_opt_oid o) ≡ o) × (u32_from_opt_oid (opt_oid_from_u32 n) ≡ n)
unfolding opt_oid_from_u32 u32_from_opt_oid
opt_oid_u32_inverse o n h = (from o h, back n)
  where
    from : (o : OptOid) → OidFits o → opt_oid_from_u32 (u32_from_opt_oid o) ≡ o
    from none h = refl
    from (some zero) h = absurd (omega arith)
    from (some (suc n)) h = refl

    back : (n : ℕ) → u32_from_opt_oid (opt_oid_from_u32 n) ≡ n
    back zero = refl
    back (suc n) = refl
