-- ===== src/Guc/Show.antt =====
-- guc.rs: how a variable is displayed.
use kui_ba_db.Base.{◌≡◌, refl, Bool, true, false, Option, none, some, get_elem?}
use kui_ba_db.Base.Text.{codes, show_ℤ}
use kui_ba_db.Base.Int.{ℤ}
use kui_ba_db.Common.{Float}
use kui_ba_db.Guc.{Str, GucIdx, GucState, Generic}

module _ (f : Float) where
  -- The text of a value, if the index is inside the array.
  show_value {ℓ} : {V : Type ℓ} → (V → Str) → Option V → Option Str
  show_value text none = none
  show_value text (some v) = some (text v)

  bool_text : Bool → Str
  bool_text true = codes "on"
  bool_text false = codes "off"

  -- The four `default_*_show` functions; `none` is the panic of an index.
  default_show : GucState f.Real → GucIdx → Option Str
  unfolding show_value bool_text
  default_show s (GucIdx.int_idx i) = show_value show_ℤ (get_elem? s.vals.int_vals i)
  default_show s (GucIdx.str_idx i) = get_elem? s.vals.str_vals i
  default_show s (GucIdx.real_idx i) = show_value f.show_f64 (get_elem? s.vals.real_vals i)
  default_show s (GucIdx.bool_idx i) = show_value bool_text (get_elem? s.vals.bool_vals i)

  show_with : Option (GucState f.Real → Str) → GucState f.Real → GucIdx → Option Str
  unfolding default_show
  show_with (some hook) s idx = some (hook s)
  show_with none s idx = default_show s idx

  unfoldable pub show : Generic f.Real → GucState f.Real → GucIdx → Option Str
  unfolding show_with
  show gen s idx = show_with gen.show s idx

  -- A variable that has no hook and a value is displayed.
  abbrev pub HasValue : GucState f.Real → GucIdx → Type 0
  HasValue s (GucIdx.int_idx i) = (v : ℤ) × (get_elem? s.vals.int_vals i ≡ some v)
  HasValue s (GucIdx.str_idx i) = (v : Str) × (get_elem? s.vals.str_vals i ≡ some v)
  HasValue s (GucIdx.real_idx i) = (v : f.Real) × (get_elem? s.vals.real_vals i ≡ some v)
  HasValue s (GucIdx.bool_idx i) = (v : Bool) × (get_elem? s.vals.bool_vals i ≡ some v)

  pub show-value :
      (gen : Generic f.Real) (s : GucState f.Real) (idx : GucIdx)
      → gen.show ≡ none
      → HasValue s idx
      → (text : Str) × (show gen s idx ≡ some text)
  unfolding show show_with default_show show_value
  show-value gen s (GucIdx.int_idx i) e (v, at) = (show_ℤ v, rw (e, at) refl)
  show-value gen s (GucIdx.str_idx i) e (v, at) = (v, rw (e, at) refl)
  show-value gen s (GucIdx.real_idx i) e (v, at) = (f.show_f64 v, rw (e, at) refl)
  show-value gen s (GucIdx.bool_idx i) e (v, at) = (bool_text v, rw (e, at) refl)
