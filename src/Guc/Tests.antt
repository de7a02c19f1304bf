-- ===== src/Guc/Tests.antt =====
-- Loading a configuration of a few entries.
use kui_ba_db.Base.{
  ◌+◌, ◌^◌, ◌≡◌, ◌≢◌, ◌⊎◌, arith, false, refl, [], ◌∷◌, none, some, ok, err, true, get_elem?,
}
use kui_ba_db.Base.Int.{ℤ, pos}
use kui_ba_db.Base.Text.{codes}
use kui_ba_db.Base.Assoc.{lookup}
use kui_ba_db.Common.{Entries, nil, cons, hash, string, integer, boolean, Float}
use kui_ba_db.Utils.Err.{AnyError}
use kui_ba_db.Guc.{LevelFilter, LogState, World, get_int, get_str, set_int_guc, set_str_guc}
use kui_ba_db.Guc.Gucdef.{tables, default_state, port, search_path}
use kui_ba_db.Guc.Apply.{batch_size, set_int_guc_cases, set_str_guc_cases}
use kui_ba_db.Guc.Load.{load}
use kui_ba_db.Guc.Load.Invariant.{LoadInv}
use kui_ba_db.Guc.Load.Total.{booted, ints_after, snoc, load_total, load_ints, load_last_int}

-- Floating point as whole numbers, for the tests.
abbrev whole : Float
whole = record { Real = ℤ; parse_f64 = λ s. none; of_i64 = λ n. n; show_f64 = λ n. codes "0" }

abbrev quiet_log : LogState
quiet_log = record { filter = codes "off"; max_level = LevelFilter.off }

abbrev conf : Entries
conf =
    cons (string (codes "port")) (integer (pos 5432))
      (cons (string (codes "is_superuser")) (boolean true) nil)

load_total_example :
    ((w : World ℤ) × (load whole
          (tables whole (λ s. true))
          (booted whole quiet_log)
          (ok (hash conf ∷ []))
        ≡ ok w)
      × LoadInv whole quiet_log w)
    × (load whole (tables whole (λ s. true)) (booted whole quiet_log) (ok [])
        ≡ ok (booted whole quiet_log))
    × ((e : AnyError) × (load whole
            (tables whole (λ s. true))
            (booted whole quiet_log)
            (ok (integer (pos 1) ∷ []))
          ≡ err e))
load_total_example = load_total whole (λ s. true) quiet_log conf [] (integer (pos 1)) (λ odd. odd)

load_ints_example :
    (w : World ℤ) × (load whole
        (tables whole (λ s. true))
        (booted whole quiet_log)
        (ok (hash conf ∷ []))
      ≡ ok w)
    × (get_int w.gucstate port
        ≡ get_elem? (ints_after conf (default_state whole).vals.int_vals) port)
load_ints_example = load_ints whole (λ s. true) quiet_log conf [] port

-- A port that needs 33 bits.
load_last_int_example :
    (w : World ℤ) × (load whole
        (tables whole (λ s. true))
        (booted whole quiet_log)
        (ok (hash (snoc conf (string (codes "port")) (integer (pos (2 ^ 32 + 80)))) ∷ []))
      ≡ ok w)
    × (get_int w.gucstate port ≡ some (pos 80))
unfolding lookup
load_last_int_example =
    load_last_int whole (λ s. true) quiet_log conf [] (codes "port") port (pos (2 ^ 32 + 80)) refl

set_int_guc_cases_example :
    (w' : World ℤ) × (set_int_guc
        (tables whole (λ s. true))
        batch_size
        (pos 32)
        (booted whole quiet_log)
      ≡ some w')
    × (((batch_size ≡ batch_size)
          × (get_int w'.gucstate batch_size ≡ some (pos 32))
          × (get_int w'.gucstate port ≡ get_int (default_state whole) port))
        ⊎ ((batch_size ≢ batch_size) × (w' ≡ booted whole quiet_log)))
set_int_guc_cases_example =
    set_int_guc_cases whole (λ s. true) batch_size port (pos 32) (booted whole quiet_log)
      (omega arith) (omega arith) refl

set_str_guc_cases_example :
    (w' : World ℤ) × (set_str_guc
        (tables whole (λ s. true))
        search_path
        (codes "ada")
        (booted whole quiet_log)
      ≡ some w')
    × (((search_path ≡ search_path)
          × (get_str w'.gucstate search_path ≡ some (codes "ada"))
          × (w'.gucstate.base_search_path_valid ≡ false))
        ⊎ ((search_path ≢ search_path) × (w' ≡ booted whole quiet_log)))
set_str_guc_cases_example =
    set_str_guc_cases whole (λ s. true) search_path (codes "ada") (booted whole quiet_log)
      (omega arith) refl
