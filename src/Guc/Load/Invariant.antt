-- ===== src/Guc/Load/Invariant.antt =====
-- guc.rs: the invariant of `load`, and one assignment from the file.
use kui_ba_db.Base.{
  ℕ, ◌<◌, ◌≡◌, refl, ◌∙◌, arith, ◌⊎◌, List, Bool, true, false, Option, none, some, length,
  length-set, get_elem?, get_elem?-set_self, get_elem?-set_ne, set, ◌≢◌, lt→ltb,
}
use kui_ba_db.Base.Int.{ℤ}
use kui_ba_db.Base.Text.{codes}
use kui_ba_db.Common.{Float}
use kui_ba_db.Guc.{
  Str, LevelFilter, LogState, World, Slot, bool_slot, int_slot, real_slot, str_slot, store,
}
use kui_ba_db.Guc.Gucdef.{
  level_of, log_min_messages, server_version, server_encoding, client_encoding, is_superuser,
}

-- The stored level `v` is one that the hook accepts, and logging was set to it; only while `v` is
-- the boot value may logging be as it was before.
abbrev pub LevelMatches : LogState → Str → Option (Str × LevelFilter) → LogState → Type 0
LevelMatches before v none log = ⊥
LevelMatches before v (some (level, lvlfilter)) log =
    ((v ≡ codes "DEBUG2") × (log ≡ before))
    ⊎ (log ≡ record { filter = level; max_level = lvlfilter })

-- What holds of the values while they are loaded, from a state whose logging was `before`.
pub record LoadInv (f : Float) (before : LogState) (w : World f.Real) : Type 0 where
  pub n_bool : length w.gucstate.vals.bool_vals ≡ 2
  pub n_str : length w.gucstate.vals.str_vals ≡ 5
  pub n_int : length w.gucstate.vals.int_vals ≡ 24
  pub n_real : length w.gucstate.vals.real_vals ≡ 1
  pub superuser : get_elem? w.gucstate.vals.bool_vals is_superuser ≡ some true
  pub version : get_elem? w.gucstate.vals.str_vals server_version ≡ some (codes "0.0.1")
  pub encoding : get_elem? w.gucstate.vals.str_vals server_encoding ≡ some (codes "UTF8")
  pub client : get_elem? w.gucstate.vals.str_vals client_encoding ≡ some (codes "UTF8")
  pub level :
      (v : Str) × (get_elem? w.gucstate.vals.str_vals log_min_messages ≡ some v)
      × LevelMatches before v (level_of v) w.log

-- A step succeeds, keeps the invariant and leaves these int values.
abbrev pub Keeps : (f : Float) → LogState → List ℤ → Option (World f.Real) → Type 0
Keeps f before ints r =
    (w : World f.Real) × (r ≡ some w) × LoadInv f before w × (w.gucstate.vals.int_vals ≡ ints)

module _ (f : Float) (reload : Str → Bool) (before : LogState) where
  -- The world with one value stored, and that an index inside the array is stored there.
  abbrev pub stored : {V : Type 0} → Slot f.Real V → ℕ → V → World f.Real → World f.Real
  stored slot i val w = record w {
    gucstate = record (w.gucstate) {
      vals = slot.put w.gucstate.vals (set (slot.vals w.gucstate.vals) i val);
    };
  }

  pub store_ok :
      {V : Type 0} (slot : Slot f.Real V) (i : ℕ) (val : V) (w : World f.Real)
      → i < length (slot.vals w.gucstate.vals)
      → store slot i val w ≡ some (stored slot i val w)
  unfolding store
  store_ok slot i val w lt = rw (lt→ltb i _ lt) refl

  pub stored-int :
      (i : ℕ) (val : ℤ) (w : World f.Real)
      → LoadInv f before w
      → LoadInv f before (stored int_slot i val w)
  stored-int i val w inv = record {
    n_bool = inv.n_bool;
    n_str = inv.n_str;
    n_int = length-set w.gucstate.vals.int_vals i val ∙ inv.n_int;
    n_real = inv.n_real;
    superuser = inv.superuser;
    version = inv.version;
    encoding = inv.encoding;
    client = inv.client;
    level = inv.level;
  }

  pub stored-real :
      (i : ℕ) (val : f.Real) (w : World f.Real)
      → LoadInv f before w
      → LoadInv f before (stored real_slot i val w)
  stored-real i val w inv = record {
    n_bool = inv.n_bool;
    n_str = inv.n_str;
    n_int = inv.n_int;
    n_real = length-set w.gucstate.vals.real_vals i val ∙ inv.n_real;
    superuser = inv.superuser;
    version = inv.version;
    encoding = inv.encoding;
    client = inv.client;
    level = inv.level;
  }

  pub stored-bool :
      (i : ℕ) (val : Bool) (w : World f.Real)
      → i ≢ 0
      → LoadInv f before w
      → LoadInv f before (stored bool_slot i val w)
  stored-bool i val w ne inv = record {
    n_bool = length-set w.gucstate.vals.bool_vals i val ∙ inv.n_bool;
    n_str = inv.n_str;
    n_int = inv.n_int;
    n_real = inv.n_real;
    superuser = get_elem?-set_ne w.gucstate.vals.bool_vals i 0 val ne ∙ inv.superuser;
    version = inv.version;
    encoding = inv.encoding;
    client = inv.client;
    level = inv.level;
  }

  -- The level goes with its value; `search_path` marks the search path as stale.
  pub stored-level :
      (val : Str) (w : World f.Real) (log : LogState)
      → LevelMatches before val (level_of val) log
      → LoadInv f before w
      → LoadInv f before (stored str_slot 0 val (record w { log = log }))
  stored-level val w log lv inv =
      let l : List Str = w.gucstate.vals.str_vals in
      record {
        n_bool = inv.n_bool;
        n_str = length-set l 0 val ∙ inv.n_str;
        n_int = inv.n_int;
        n_real = inv.n_real;
        superuser = inv.superuser;
        version = get_elem?-set_ne l 0 1 val (omega arith) ∙ inv.version;
        encoding = get_elem?-set_ne l 0 2 val (omega arith) ∙ inv.encoding;
        client = get_elem?-set_ne l 0 3 val (omega arith) ∙ inv.client;
        level = (val, get_elem?-set_self l 0 val (omega (arith, inv.n_str)), lv);
      }

  pub stored-search_path :
      (val : Str) (w : World f.Real)
      → LoadInv f before w
      → LoadInv f before (
          stored str_slot 4 val
            (record w { gucstate = record (w.gucstate) { base_search_path_valid = false } }))
  stored-search_path val w inv =
      let l : List Str = w.gucstate.vals.str_vals in
      let (v, at, lv) = inv.level in
      record {
        n_bool = inv.n_bool;
        n_str = length-set l 4 val ∙ inv.n_str;
        n_int = inv.n_int;
        n_real = inv.n_real;
        superuser = inv.superuser;
        version = get_elem?-set_ne l 4 1 val (omega arith) ∙ inv.version;
        encoding = get_elem?-set_ne l 4 2 val (omega arith) ∙ inv.encoding;
        client = get_elem?-set_ne l 4 3 val (omega arith) ∙ inv.client;
        level = (v, get_elem?-set_ne l 4 0 val (omega arith) ∙ at, lv);
      }
