-- ===== src/Guc/Apply.antt =====
-- guc.rs: the setters of the SET command on the variables of gucdef.yaml.
use kui_ba_db.Base.{
  ℕ, zero, suc, ◌<◌, ◌≡◌, ◌≢◌, refl, arith, ◌⊎◌, inl, inr, List, [], ◌∷◌, Bool, false, Bool-cases,
  none, some, length, get_elem?, get_elem?-set_self, get_elem?-set_ne, set, lt→ltb, ◌==◌,
}
use kui_ba_db.Base.Int.{ℤ}
use kui_ba_db.Common.{Float}
use kui_ba_db.Guc.{
  Str, Source, World, Guc, preassign, run_hook, store, finish_apply, apply_meta, apply_guc, get_int,
  get_str, set_int_guc, set_str_guc,
}
use kui_ba_db.Guc.Gucdef.{tables, int_gucs, search_path_preassign, search_path}

-- `batch_size` among the int variables.
abbrev pub batch_size : ℕ
batch_size = 13

-- A predicate of each element and its index.
abbrev AllAt {ℓ κ} : {A : Type ℓ} → (ℕ → A → Type κ) → List A → Type κ
AllAt P [] = Unit
AllAt P (x ∷ xs) = P 0 x × AllAt (λ i. P (suc i)) xs

get_elem?-AllAt {ℓ κ} :
    {A : Type ℓ} (P : ℕ → A → Type κ) (xs : List A) (i : ℕ)
    → AllAt P xs
    → i < length xs
    → (x : A) × (get_elem? xs i ≡ some x) × P i x
get_elem?-AllAt P [] i h lt = absurd (omega arith)
get_elem?-AllAt P (x ∷ xs) zero (hx, h) lt = (x, refl, hx)
get_elem?-AllAt P (x ∷ xs) (suc i) (hx, h) lt =
    get_elem?-AllAt (λ j. P (suc j)) xs i h (omega arith)

module _ (f : Float) (reload : Str → Bool) where
  -- SET may assign `batch_size` only, and no int variable has a hook.
  abbrev OnlyBatchSize : ℕ → Guc f.Real ℤ → Type 0
  OnlyBatchSize i m =
      (m.preassign ≡ none) × (preassign m.gen Source.set_command ≡ (i == batch_size))

  int_gucs-OnlyBatchSize : AllAt OnlyBatchSize (int_gucs f.Real reload)
  unfolding preassign
  int_gucs-OnlyBatchSize = assumption (refl, tt)

  -- For an int variable and an array of all their values, SET does not panic. It assigns
  -- `batch_size` and leaves every other int variable; of another variable it changes nothing.
  pub set_int_guc_cases :
      (i j : ℕ) (val : ℤ) (w : World f.Real)
      → i < 24
      → i ≢ j
      → length w.gucstate.vals.int_vals ≡ 24
      → (w' : World f.Real) × (set_int_guc (tables f reload) i val w ≡ some w')
        × (((i ≡ batch_size)
              × (get_int w'.gucstate i ≡ some val)
              × (get_int w'.gucstate j ≡ get_int w.gucstate j))
            ⊎ ((i ≢ batch_size) × (w' ≡ w)))
  unfolding set_int_guc apply_guc apply_meta run_hook finish_apply store get_int
  set_int_guc_cases i j val w lt ne len =
      let (meta, at, (plain, perm)) =
        get_elem?-AllAt OnlyBatchSize (int_gucs f.Real reload) i int_gucs-OnlyBatchSize lt in
      let inside : i < length w.gucstate.vals.int_vals = rw len lt in
      let ints = w.gucstate.vals.int_vals in
      elim (Bool-cases (i == batch_size)) [
        | inl same ↦ (
          record w {
            gucstate = record (w.gucstate) {
              vals = record (w.gucstate.vals) { int_vals = set ints i val };
            };
          },
          rw (at, perm, same, plain) (rw (lt→ltb i _ inside) refl),
          inl (
            ground arith,
            get_elem?-set_self ints i val inside,
            get_elem?-set_ne ints i j val ne,
          ),
        )
        | inr other ↦ (w, rw (at, perm, other) refl, inr (ground arith, refl))
      ]

  -- For a string variable and an array of all their values, SET does not panic. It assigns
  -- `search_path` and marks the search path of the session as stale; of another variable it
  -- changes nothing.
  pub set_str_guc_cases :
      (i : ℕ) (val : Str) (w : World f.Real)
      → i < 5
      → length w.gucstate.vals.str_vals ≡ 5
      → (w' : World f.Real) × (set_str_guc (tables f reload) i val w ≡ some w')
        × (((i ≡ search_path)
              × (get_str w'.gucstate i ≡ some val)
              × (w'.gucstate.base_search_path_valid ≡ false))
            ⊎ ((i ≢ search_path) × (w' ≡ w)))
  unfolding set_str_guc apply_guc apply_meta run_hook finish_apply preassign store get_str
      search_path_preassign
  set_str_guc_cases zero val w lt len = (w, refl, inr (omega arith, refl))
  set_str_guc_cases (suc zero) val w lt len = (w, refl, inr (omega arith, refl))
  set_str_guc_cases (suc (suc zero)) val w lt len = (w, refl, inr (omega arith, refl))
  set_str_guc_cases (suc (suc (suc zero))) val w lt len = (w, refl, inr (omega arith, refl))
  set_str_guc_cases (suc (suc (suc (suc zero)))) val w lt len =
      let inside : 4 < length w.gucstate.vals.str_vals = omega arith in
      (
        record w {
          gucstate = record {
            vals = record (w.gucstate.vals) { str_vals = set w.gucstate.vals.str_vals 4 val };
            base_search_path_valid = false;
          };
        },
        rw (lt→ltb 4 _ inside) refl,
        inl (refl, get_elem?-set_self w.gucstate.vals.str_vals 4 val inside, refl),
      )
  set_str_guc_cases (suc (suc (suc (suc (suc i))))) val w lt len = absurd (omega arith)
