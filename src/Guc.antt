-- ===== src/Guc.antt =====
-- guc.rs: the configuration variables (GUCs), their tables and their values.
mod Tests
pub mod Gucdef
pub mod Show
pub mod Load
pub mod Apply
use Prim.Native.Nat.{bit_and}
use kui_ba_db.Base.{
  ℕ, ◌≤◌, Bytes, List, [], ◌∷◌, Bool, true, false, not, ◌&&◌, Option, none, some, Outcome, ok, err,
  panic, ◌>>=◌, get_elem?, set, length, ltb, leb, ◌==◌, if◌then◌else◌,
}
use kui_ba_db.Base.Int.{ℤ}
use kui_ba_db.Base.Text.{codes, show_ℤ}
use kui_ba_db.Base.Assoc.{Assoc, lookup}

abbrev pub Str : Type 0
Str = Bytes

pub data Context : Type 0 where
  internal kuibadb sig_hup su_set user_set : Context

-- The derived order: that of the declaration.
abbrev pub rank : Context → ℕ
rank Context.internal = 0
rank Context.kuibadb = 1
rank Context.sig_hup = 2
rank Context.su_set = 3
rank Context.user_set = 4

pub data Source : Type 0 where
  file set_command : Source

abbrev pub report : ℕ
report = 0x0010

pub data GucIdx : Type 0 where
  int_idx bool_idx str_idx real_idx : ℕ → GucIdx

-- `log::LevelFilter`, and the part of the process's logging that a hook changes: the filter that
-- was last loaded, and the maximal level.
pub data LevelFilter : Type 0 where
  off error warn info debug trace : LevelFilter

pub record LogState : Type 0 where
  pub filter : Str
  pub max_level : LevelFilter

-- `R` is the type f64.
module _ (R : Type 0) where
  pub record GucVals : Type 0 where
    pub bool_vals : List Bool
    pub str_vals : List Str
    pub int_vals : List ℤ
    pub real_vals : List R

  pub record GucState : Type 0 where
    pub vals : GucVals
    pub base_search_path_valid : Bool

  -- The state that an assignment works on: the variables, and the process's logging.
  pub record World : Type 0 where
    pub gucstate : GucState
    pub log : LogState

  pub record Generic : Type 0 where
    pub context : Context
    pub flags : ℕ
    pub show : Option (GucState → Str)

  -- What a hook leaves: the value, the world, and whether the value is accepted.
  pub record Hooked (V : Type 0) : Type 0 where
    pub val : V
    pub world : World
    pub accepted : Bool

  pub record Guc (V : Type 0) : Type 0 where
    pub gen : Generic
    pub preassign : Option (V → World → Hooked V)

  -- The tables that the build generates, and the map of names.
  pub record GucTables : Type 0 where
    pub bool_gucs : List (Guc Bool)
    pub int_gucs : List (Guc ℤ)
    pub real_gucs : List (Guc R)
    pub str_gucs : List (Guc Str)
    pub nameinfo_map : Assoc GucIdx

  -- One of the four arrays of values, as the macro `def_apply_fn!` takes it.
  pub record Slot (V : Type 0) : Type 0 where
    pub metas : GucTables → List (Guc V)
    pub vals : GucVals → List V
    pub put : GucVals → List V → GucVals

module _ {R : Type 0} where
  unfoldable pub should_report : Generic R → Bool
  should_report gen = not (bit_and gen.flags report == 0)

  -- The check that comes before the variable's own hook.
  pub preassign : Generic R → Source → Bool
  preassign gen Source.file = not (rank gen.context == rank Context.internal)
  preassign gen Source.set_command = leb (rank Context.su_set) (rank gen.context)

  abbrev pub bool_slot : Slot R Bool
  bool_slot = record {
    metas = λ t. t.bool_gucs;
    vals = λ v. v.bool_vals;
    put = λ v l. record v { bool_vals = l };
  }

  abbrev pub int_slot : Slot R ℤ
  int_slot = record {
    metas = λ t. t.int_gucs;
    vals = λ v. v.int_vals;
    put = λ v l. record v { int_vals = l };
  }

  abbrev pub real_slot : Slot R R
  real_slot = record {
    metas = λ t. t.real_gucs;
    vals = λ v. v.real_vals;
    put = λ v l. record v { real_vals = l };
  }

  abbrev pub str_slot : Slot R Str
  str_slot = record {
    metas = λ t. t.str_gucs;
    vals = λ v. v.str_vals;
    put = λ v l. record v { str_vals = l };
  }

  -- `meta.preassign.map_or(true, |v| v(&mut val, gucstate))`
  pub run_hook : {V : Type 0} → Option (V → World R → Hooked R V) → V → World R → Hooked R V
  run_hook none val w = record { val = val; world = w; accepted = true }
  run_hook (some f) val w = f val w

  -- `*gucvalptr = val`; `none` is the panic of an index that leaves the array.
  pub store : {V : Type 0} → Slot R V → ℕ → V → World R → Option (World R)
  store slot idx val w =
      let arr = slot.vals w.gucstate.vals in
      if ltb idx (length arr)
      then some (record w {
        gucstate = record (w.gucstate) { vals = slot.put w.gucstate.vals (set arr idx val) };
      })
      else none

  -- What the hook left is stored, or only the world that it changed is kept.
  pub finish_apply : {V : Type 0} → Slot R V → ℕ → Hooked R V → Option (World R)
  finish_apply slot idx h = if h.accepted then store slot idx h.val h.world else some h.world

  pub apply_meta :
      {V : Type 0} → Slot R V → ℕ → V → World R → Source → Option (Guc R V) → Option (World R)
  apply_meta slot idx val w src none = none
  apply_meta slot idx val w src (some meta) =
      if preassign meta.gen src
      then finish_apply slot idx (run_hook meta.preassign val w)
      else some w

  -- The body of `def_apply_fn!`.
  pub apply_guc :
      {V : Type 0} → GucTables R → Slot R V → ℕ → V → World R → Source → Option (World R)
  apply_guc tables slot idx val w src =
      apply_meta slot idx val w src (get_elem? (slot.metas tables) idx)

  pub get_gucidx : GucTables R → Str → Option GucIdx
  get_gucidx tables name = lookup name tables.nameinfo_map

  -- `get_gucmeta` and `get_guc_generic`
  unfoldable pub generic_of : {V : Type 0} → Option (Guc R V) → Option (Generic R)
  generic_of none = none
  generic_of (some meta) = some meta.gen

  unfoldable pub get_guc_generic : GucTables R → GucIdx → Option (Generic R)
  get_guc_generic tables (GucIdx.int_idx i) = generic_of (get_elem? tables.int_gucs i)
  get_guc_generic tables (GucIdx.str_idx i) = generic_of (get_elem? tables.str_gucs i)
  get_guc_generic tables (GucIdx.real_idx i) = generic_of (get_elem? tables.real_gucs i)
  get_guc_generic tables (GucIdx.bool_idx i) = generic_of (get_elem? tables.bool_gucs i)

  -- `get_int`, `get_bool` and `get_str`
  unfoldable pub get_int : GucState R → ℕ → Option ℤ
  get_int s i = get_elem? s.vals.int_vals i

  pub get_bool : GucState R → ℕ → Option Bool
  get_bool s i = get_elem? s.vals.bool_vals i

  unfoldable pub get_str : GucState R → ℕ → Option Str
  get_str s i = get_elem? s.vals.str_vals i

  -- The setters of the SET command.
  module _ (tables : GucTables R) where
    pub set_int_guc : ℕ → ℤ → World R → Option (World R)
    set_int_guc idx val w = apply_guc tables int_slot idx val w Source.set_command

    pub set_str_guc : ℕ → Str → World R → Option (World R)
    set_str_guc idx val w = apply_guc tables str_slot idx val w Source.set_command

    pub set_real_guc : ℕ → R → World R → Option (World R)
    set_real_guc idx val w = apply_guc tables real_slot idx val w Source.set_command

    pub set_bool_guc : ℕ → Bool → World R → Option (World R)
    set_bool_guc idx val w = apply_guc tables bool_slot idx val w Source.set_command
