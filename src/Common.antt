-- ===== src/Common.antt =====
-- common.rs and src/common.rs: YAML values read as configuration values. `Yaml` is the enum of the
-- crate yaml_rust, with the cases that the code tells apart; `other` stands for the rest of them.
-- The crate's `Real` holds the text of the number. Floating point is a parameter.
use kui_ba_db.Base.{Bytes, Bool, true, false, not, ◌==◌, Option, none, some}
use kui_ba_db.Base.Int.{ℤ, pos, negsuc, wrap_i32}
use kui_ba_db.Base.Text.{codes, eq_ignore_ascii_case, parse_i32, show_ℤ}

mutual
  pub data Yaml : Type 0 where
    real : Bytes → Yaml
    integer : ℤ → Yaml
    string : Bytes → Yaml
    boolean : Bool → Yaml
    array : Items → Yaml
    hash : Entries → Yaml
    other : Yaml

  pub data Items : Type 0 where
    end : Items
    item : Yaml → Items → Items

  -- The entries of a hash, in the order of the file.
  pub data Entries : Type 0 where
    nil : Entries
    cons : Yaml → Yaml → Entries → Entries

-- What the code needs of `f64`.
pub record Float : Type 1 where
  pub Real : Type 0
  pub parse_f64 : Bytes → Option Real
  pub of_i64 : ℤ → Real
  pub show_f64 : Real → Bytes

is_zero : ℤ → Bool
is_zero (pos n) = n == 0
is_zero (negsuc n) = false

unfoldable pub yaml_try_tobool : Yaml → Option Bool
unfolding is_zero
yaml_try_tobool (integer v) = some (not (is_zero v))
yaml_try_tobool (string v) = some (eq_ignore_ascii_case v (codes "true"))
yaml_try_tobool (boolean v) = some v
yaml_try_tobool _ = none

-- An integer is cut to 32 bits, a text is parsed.
unfoldable pub yaml_try_toi32 : Yaml → Option ℤ
yaml_try_toi32 (integer v) = some (wrap_i32 v)
yaml_try_toi32 (string v) = parse_i32 v
yaml_try_toi32 (boolean true) = some (pos 1)
yaml_try_toi32 (boolean false) = some (pos 0)
yaml_try_toi32 (real v) = parse_i32 v
yaml_try_toi32 _ = none

unfoldable pub yaml_try_tof64 : (f : Float) → Yaml → Option f.Real
yaml_try_tof64 f (integer v) = some (f.of_i64 v)
yaml_try_tof64 f (string v) = f.parse_f64 v
yaml_try_tof64 f (real v) = f.parse_f64 v
yaml_try_tof64 f _ = none

unfoldable pub yaml_try_tostr : Yaml → Option Bytes
yaml_try_tostr (real v) = some v
yaml_try_tostr (integer v) = some (show_ℤ v)
yaml_try_tostr (string v) = some v
yaml_try_tostr (boolean true) = some (codes "true")
yaml_try_tostr (boolean false) = some (codes "false")
yaml_try_tostr _ = none
