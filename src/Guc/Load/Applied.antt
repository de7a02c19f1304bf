-- ===== src/Guc/Load/Applied.antt =====
-- guc.rs: each assignment of `load` succeeds and keeps the invariant, whatever the variable.
use kui_ba_db.Base.{
  ℕ, zero, suc, ◌<◌, ◌≡◌, refl, arith, inl, inr, Bool, true, false, Bool-cases, none, some,
  Option-cases, All, length, get_elem?-All, set,
}
use kui_ba_db.Base.Int.{ℤ}
use kui_ba_db.Common.{Float}
use kui_ba_db.Guc.{
  Str, Source, LogState, World, Guc, Slot, bool_slot, int_slot, real_slot, str_slot, preassign,
  run_hook, finish_apply, apply_meta, apply_guc,
}
use kui_ba_db.Guc.Gucdef.{
  level_of, reload_level, log_min_messages_preassign, search_path_preassign, int_gucs, tables,
}
use kui_ba_db.Guc.Load.Invariant.{
  LoadInv, Keeps, stored, store_ok, stored-int, stored-real, stored-bool, stored-level,
  stored-search_path,
}

module _ (f : Float) (reload : Str → Bool) (before : LogState) where
  -- A variable without a hook is stored or left alone.
  module _ {V : Type 0} (slot : Slot f.Real V) (i : ℕ) (val : V) (w : World f.Real)
      (inv : LoadInv f before w) where
    apply_plain :
        (meta : Guc f.Real V)
        → meta.preassign ≡ none
        → i < length (slot.vals w.gucstate.vals)
        → LoadInv f before (stored f reload before slot i val w)
        → (stored f reload before slot i val w).gucstate.vals.int_vals ≡ w.gucstate.vals.int_vals
        → Keeps f before w.gucstate.vals.int_vals (apply_meta slot i val w Source.file (some meta))
    unfolding apply_meta
    apply_plain meta no_hook lt kept ints = elim (Bool-cases (preassign meta.gen Source.file)) [
      | inl allowed ↦ (
        stored f reload before slot i val w,
        rw (allowed, no_hook)
            (unfold run_hook finish_apply in store_ok f reload before slot i val w lt),
        kept,
        ints,
      )
      | inr denied ↦ (w, rw denied refl, inv, refl)
    ]

  -- Every int variable may be set in the file, and none has a hook.
  abbrev IsPlainInt : Guc f.Real ℤ → Type 0
  IsPlainInt m = (m.preassign ≡ none) × (preassign m.gen Source.file ≡ true)

  int-no_hooks : All IsPlainInt (int_gucs f.Real reload)
  unfolding preassign
  int-no_hooks = assumption (refl, tt)

  module _ (w : World f.Real) (inv : LoadInv f before w) where
    pub apply_int :
        (i : ℕ) (val : ℤ)
        → i < 24
        → Keeps f before
            (set w.gucstate.vals.int_vals i val)
            (apply_guc (tables f reload) int_slot i val w Source.file)
    unfolding apply_guc apply_meta run_hook finish_apply
    apply_int i val lt =
        let (meta, at, plain) =
          get_elem?-All IsPlainInt (int_gucs f.Real reload) i int-no_hooks lt in
        (
          stored f reload before int_slot i val w,
          rw (at, plain.1, plain.0) (store_ok f reload before int_slot i val w (rw inv.n_int lt)),
          stored-int f reload before i val w inv,
          refl,
        )

    pub apply_real :
        (i : ℕ) (val : f.Real)
        → i < 1
        → Keeps f before w.gucstate.vals.int_vals
            (apply_guc (tables f reload) real_slot i val w Source.file)
    unfolding apply_guc
    apply_real zero val lt =
        apply_plain real_slot 0 val w inv _ refl (omega (arith, inv.n_real))
          (stored-real f reload before 0 val w inv) refl
    apply_real (suc i) val lt = absurd (omega arith)

    pub apply_bool :
        (i : ℕ) (val : Bool)
        → i < 2
        → Keeps f before w.gucstate.vals.int_vals
            (apply_guc (tables f reload) bool_slot i val w Source.file)
    unfolding apply_guc
    apply_bool zero val lt = (w, unfold apply_meta preassign in refl, inv, refl)
    apply_bool (suc zero) val lt =
        apply_plain bool_slot 1 val w inv _ refl (omega (arith, inv.n_bool))
          (stored-bool f reload before 1 val w (omega arith) inv) refl
    apply_bool (suc (suc i)) val lt = absurd (omega arith)

    apply_level :
        (val : Str)
        → Keeps f before w.gucstate.vals.int_vals
            (apply_guc (tables f reload) str_slot 0 val w Source.file)
    unfolding apply_guc apply_meta preassign run_hook log_min_messages_preassign
    apply_level val = elim (Option-cases (level_of val)) [
      | inl e ↦ (w, rw e (unfold reload_level finish_apply in refl), inv, refl)
      | inr ((level, lvlfilter), e) ↦ elim (Bool-cases (reload level)) [
        | inl accepted ↦
            let log : LogState = record { filter = level; max_level = lvlfilter } in
            (
              stored f reload before str_slot 0 val (record w { log = log }),
              rw e (
                  unfold reload_level finish_apply in
                  rw accepted
                    (store_ok f reload before str_slot 0 val _ (omega (arith, inv.n_str)))),
              stored-level f reload before val w log (rw e (inr refl)) inv,
              refl,
            )
        | inr refused ↦ (w, rw e (unfold reload_level finish_apply in rw refused refl), inv, refl)
      ]
    ]

    pub apply_str :
        (i : ℕ) (val : Str)
        → i < 5
        → Keeps f before w.gucstate.vals.int_vals
            (apply_guc (tables f reload) str_slot i val w Source.file)
    unfolding apply_guc
    apply_str zero val lt = unfold apply_guc in apply_level val
    apply_str (suc zero) val lt = (w, unfold apply_meta preassign in refl, inv, refl)
    apply_str (suc (suc zero)) val lt = (w, unfold apply_meta preassign in refl, inv, refl)
    apply_str (suc (suc (suc zero))) val lt = (w, unfold apply_meta preassign in refl, inv, refl)
    apply_str (suc (suc (suc (suc zero)))) val lt = (
      stored f reload before str_slot 4 val
          (record w { gucstate = record (w.gucstate) { base_search_path_valid = false } }),
      unfold apply_meta preassign run_hook search_path_preassign finish_apply in
          store_ok f reload before str_slot 4 val _ (omega (arith, inv.n_str)),
      stored-search_path f reload before val w inv,
      refl,
    )
    apply_str (suc (suc (suc (suc (suc i))))) val lt = absurd (omega arith)
