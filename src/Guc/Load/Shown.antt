-- ===== src/Guc/Load/Shown.antt =====
-- guc.rs: every variable of a loaded configuration can be displayed.
use kui_ba_db.Base.{◌<◌, ◌≡◌, refl, All, get_elem?-All, get_elem?-inside, Bool, none, some}
use kui_ba_db.Common.{Float}
use kui_ba_db.Guc.{Str, GucIdx, Guc, Generic, LogState, World, get_guc_generic, generic_of}
use kui_ba_db.Guc.Gucdef.{bool_gucs, int_gucs, real_gucs, str_gucs, tables}
use kui_ba_db.Guc.Show.{show, HasValue, show-value}
use kui_ba_db.Guc.Load.Invariant.{LoadInv}

-- The index of a variable that there is.
abbrev pub IsIndex : GucIdx → Type 0
IsIndex (GucIdx.bool_idx i) = i < 2
IsIndex (GucIdx.int_idx i) = i < 24
IsIndex (GucIdx.str_idx i) = i < 5
IsIndex (GucIdx.real_idx i) = i < 1

module _ (f : Float) (reload : Str → Bool) where
  abbrev IsShown : {V : Type 0} → Guc f.Real V → Type 0
  IsShown m = m.gen.show ≡ none

  int-IsShown : All IsShown (int_gucs f.Real reload)
  int-IsShown = assumption (refl, tt)

  bool-IsShown : All IsShown (bool_gucs f.Real reload)
  bool-IsShown = assumption (refl, tt)

  str-IsShown : All IsShown (str_gucs f.Real reload)
  str-IsShown = assumption (refl, tt)

  real-IsShown : All IsShown (real_gucs f.Real reload)
  real-IsShown = assumption (refl, tt)

  pub generic-some :
      (idx : GucIdx)
      → IsIndex idx
      → (gen : Generic f.Real) × (get_guc_generic (tables f reload) idx ≡ some gen)
        × (gen.show ≡ none)
  unfolding get_guc_generic generic_of
  generic-some (GucIdx.int_idx i) h =
      let (m, at, s) = get_elem?-All IsShown (int_gucs f.Real reload) i int-IsShown h in
      (m.gen, rw at refl, s)
  generic-some (GucIdx.bool_idx i) h =
      let (m, at, s) = get_elem?-All IsShown (bool_gucs f.Real reload) i bool-IsShown h in
      (m.gen, rw at refl, s)
  generic-some (GucIdx.str_idx i) h =
      let (m, at, s) = get_elem?-All IsShown (str_gucs f.Real reload) i str-IsShown h in
      (m.gen, rw at refl, s)
  generic-some (GucIdx.real_idx i) h =
      let (m, at, s) = get_elem?-All IsShown (real_gucs f.Real reload) i real-IsShown h in
      (m.gen, rw at refl, s)

  pub show-some :
      (log : LogState) (w : World f.Real) (idx : GucIdx) (gen : Generic f.Real)
      → LoadInv f log w
      → IsIndex idx
      → gen.show ≡ none
      → (v : Str) × (show f gen w.gucstate idx ≡ some v)
  show-some log w idx gen inv h e = show-value f gen w.gucstate idx e (value idx h)
    where
      value : (idx : GucIdx) → IsIndex idx → HasValue f w.gucstate idx
      value (GucIdx.int_idx i) h = get_elem?-inside w.gucstate.vals.int_vals i (rw inv.n_int h)
      value (GucIdx.bool_idx i) h = get_elem?-inside w.gucstate.vals.bool_vals i (rw inv.n_bool h)
      value (GucIdx.str_idx i) h = get_elem?-inside w.gucstate.vals.str_vals i (rw inv.n_str h)
      value (GucIdx.real_idx i) h = get_elem?-inside w.gucstate.vals.real_vals i (rw inv.n_real h)
