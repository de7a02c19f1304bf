-- ===== src/Guc/Load.antt =====
-- guc.rs: `load_guc` and `load`, which apply the entries of kuiba.conf in their order.
pub mod Invariant
pub mod Applied
pub mod Shown
pub mod Loaded
pub mod Total
use kui_ba_db.Base.{
  ℕ, Bytes, List, [], ◌∷◌, Bool, Option, none, some, Outcome, ok, err, panic, ◌>>=◌,
}
use kui_ba_db.Base.Int.{ℤ}
use kui_ba_db.Base.Text.{codes}
use kui_ba_db.Common.{
  Yaml, Entries, nil, cons, hash, Float, yaml_try_tobool, yaml_try_toi32, yaml_try_tof64,
  yaml_try_tostr,
}
use kui_ba_db.Utils.Err.{AnyError, Cause, Fallible}
use kui_ba_db.Guc.{
  Str, Source, GucIdx, World, GucTables, Slot, bool_slot, int_slot, real_slot, str_slot, apply_guc,
  get_gucidx,
}

module _ (f : Float) (tables : GucTables f.Real) where
  -- The macro `apply_guc!`: a value of the wrong kind is logged and skipped.
  pub apply_yaml :
      {V : Type 0} → Slot f.Real V → ℕ → Option V → World f.Real → Option (World f.Real)
  apply_yaml slot idx none w = some w
  apply_yaml slot idx (some val) w = apply_guc tables slot idx val w Source.file

  pub load_idx : Option GucIdx → Yaml → World f.Real → Option (World f.Real)
  load_idx (some (GucIdx.bool_idx i)) y w = apply_yaml bool_slot i (yaml_try_tobool y) w
  load_idx (some (GucIdx.int_idx i)) y w = apply_yaml int_slot i (yaml_try_toi32 y) w
  load_idx (some (GucIdx.str_idx i)) y w = apply_yaml str_slot i (yaml_try_tostr y) w
  load_idx (some (GucIdx.real_idx i)) y w = apply_yaml real_slot i (yaml_try_tof64 f y) w
  load_idx none y w = some w

  pub load_guc : World f.Real → Str → Yaml → Option (World f.Real)
  load_guc w guckey gucval = load_idx (get_gucidx tables guckey) gucval w

  -- A name that is no text is logged and skipped.
  pub load_entry : World f.Real → Option Str → Yaml → Option (World f.Real)
  load_entry w none gucval = some w
  load_entry w (some guckey) gucval = load_guc w guckey gucval

  -- The loop over the hash.
  unfoldable pub load_entries : World f.Real → Entries → Option (World f.Real)
  load_entries w nil = some w
  load_entries w (cons name val es) = elim (load_entry w (yaml_try_tostr name) val) [
    | none ↦ none
    | some w' ↦ load_entries w' es
  ]

  unfoldable pub or_panic : Option (World f.Real) → Fallible (World f.Real)
  or_panic none = panic
  or_panic (some w) = ok w

  -- The text goes on with a dump of the data, which is left out.
  pub unknown_yaml : AnyError
  unknown_yaml = record { contexts = []; cause = Cause.text (codes "Unknown yaml.") }

  unfoldable pub load_doc : World f.Real → Yaml → Fallible (World f.Real)
  load_doc w (hash es) = or_panic (load_entries w es)
  load_doc w _ = err unknown_yaml

  unfoldable pub load_docs : World f.Real → List Yaml → Fallible (World f.Real)
  load_docs w [] = ok w
  load_docs w (doc ∷ docs) = load_doc w doc

  -- `load`: `docs` is what `common::load_yaml` makes of the file, and `w` the defaults.
  unfoldable pub load : World f.Real → Fallible (List Yaml) → Fallible (World f.Real)
  load w docs = do yamldata ← docs; load_docs w yamldata
