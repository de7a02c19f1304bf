-- ===== src/Guc/Load/Total.antt =====
-- guc.rs: `load` on any configuration file.
use kui_ba_db.Base.{
  ℕ, ◌<◌, ◌≡◌, refl, ap, ◌∙◌, arith, inl, inr, Bytes, List, [], ◌∷◌, Bool, Bool-cases, Option, none,
  some, Option-cases, All, length, get_elem?, get_elem?-set_self, set, ok, err, eq_bytes,
}
use mathlib.Core.Path.{subst}
use kui_ba_db.Base.Int.{ℤ, wrap_i32}
use kui_ba_db.Base.Text.{codes}
use kui_ba_db.Base.Assoc.{Assoc, lookup}
use kui_ba_db.Common.{
  Yaml, Entries, nil, cons, hash, string, integer, Float, yaml_try_tobool, yaml_try_toi32,
  yaml_try_tof64, yaml_try_tostr,
}
use kui_ba_db.Utils.Err.{AnyError}
use kui_ba_db.Guc.{Str, GucIdx, LogState, World, get_gucidx, get_int}
use kui_ba_db.Guc.Gucdef.{tables, nameinfo_map, default_state, level_of}
use kui_ba_db.Guc.Load.{
  load_idx, apply_yaml, load_guc, load_entry, load_entries, or_panic, unknown_yaml, load_doc,
  load_docs, load,
}
use kui_ba_db.Guc.Load.Invariant.{LoadInv, Keeps}
use kui_ba_db.Guc.Load.Applied.{apply_int, apply_real, apply_bool, apply_str}

-- A value of the name map lies inside the table of its type.
abbrev InTable : GucIdx → Type 0
InTable (GucIdx.bool_idx i) = i < 2
InTable (GucIdx.int_idx i) = i < 24
InTable (GucIdx.real_idx i) = i < 1
InTable (GucIdx.str_idx i) = i < 5

lookup-All {ℓ κ} :
    {V : Type ℓ} (P : V → Type κ) (k : Bytes) (m : Assoc V) (v : V)
    → All (λ e. P e.1) m
    → lookup k m ≡ some v
    → P v
unfolding lookup
lookup-All P k [] v h e = cc
lookup-All P k ((j, w) ∷ m) v (hw, h) e = elim (Bool-cases (eq_bytes j k)) [
  | inl same ↦ let found : w ≡ v = ground arith in subst P found hw
  | inr other ↦ lookup-All P k m v h (rw other at e)
]

nameinfo-InTable : All (λ (e : Bytes × GucIdx). InTable e.1) nameinfo_map
nameinfo-InTable = omega arith

-- What an entry makes of the int values: a usable value of an int variable is stored.
abbrev pub put_int : Option ℤ → ℕ → List ℤ → List ℤ
put_int none i ints = ints
put_int (some v) i ints = set ints i v

abbrev pub int_update : Option GucIdx → Yaml → List ℤ → List ℤ
int_update (some (GucIdx.int_idx i)) val ints = put_int (yaml_try_toi32 val) i ints
int_update _ val ints = ints

entry_update : Option Str → Yaml → List ℤ → List ℤ
entry_update none val ints = ints
entry_update (some k) val ints = int_update (lookup k nameinfo_map) val ints

-- The int values after all entries of the file, in their order: a later entry wins.
pub ints_after : Entries → List ℤ → List ℤ
ints_after nil ints = ints
ints_after (cons name val es) ints = ints_after es (entry_update (yaml_try_tostr name) val ints)

abbrev InTable? : Option GucIdx → Type 0
InTable? none = Unit {0}
InTable? (some idx) = InTable idx

lookup-InTable : (k : Str) → InTable? (lookup k nameinfo_map)
lookup-InTable k = go (lookup k nameinfo_map) refl
  where
    go : (o : Option GucIdx) → lookup k nameinfo_map ≡ o → InTable? o
    go none e = tt
    go (some idx) e = lookup-All InTable k nameinfo_map idx nameinfo-InTable e

module _ (f : Float) (reload : Str → Bool) (before : LogState) where
  -- One entry keeps the invariant, and changes the int values as `int_update` says.
  load_idx-Keeps :
      (o : Option GucIdx) (y : Yaml) (w : World f.Real)
      → InTable? o
      → LoadInv f before w
      → Keeps f before
          (int_update o y w.gucstate.vals.int_vals)
          (load_idx f (tables f reload) o y w)
  unfolding load_idx
  load_idx-Keeps none y w lt inv = (w, refl, inv, refl)
  load_idx-Keeps (some (GucIdx.bool_idx i)) y w lt inv = elim (Option-cases (yaml_try_tobool y)) [
    | inl e ↦ rw e (w, unfold apply_yaml in refl, inv, refl)
    | inr (v, e) ↦ rw e (unfold apply_yaml in apply_bool f reload before w inv i v lt)
  ]
  load_idx-Keeps (some (GucIdx.int_idx i)) y w lt inv = elim (Option-cases (yaml_try_toi32 y)) [
    | inl e ↦ rw e (w, unfold apply_yaml in refl, inv, refl)
    | inr (v, e) ↦ rw e (unfold apply_yaml in apply_int f reload before w inv i v lt)
  ]
  load_idx-Keeps (some (GucIdx.str_idx i)) y w lt inv = elim (Option-cases (yaml_try_tostr y)) [
    | inl e ↦ rw e (w, unfold apply_yaml in refl, inv, refl)
    | inr (v, e) ↦ rw e (unfold apply_yaml in apply_str f reload before w inv i v lt)
  ]
  load_idx-Keeps (some (GucIdx.real_idx i)) y w lt inv = elim (Option-cases (yaml_try_tof64 f y)) [
    | inl e ↦ rw e (w, unfold apply_yaml in refl, inv, refl)
    | inr (v, e) ↦ rw e (unfold apply_yaml in apply_real f reload before w inv i v lt)
  ]

  load_entry-Keeps :
      (o : Option Str) (y : Yaml) (w : World f.Real)
      → LoadInv f before w
      → Keeps f before
          (entry_update o y w.gucstate.vals.int_vals)
          (load_entry f (tables f reload) w o y)
  unfolding load_entry load_guc entry_update
  load_entry-Keeps none y w inv = (w, refl, inv, refl)
  load_entry-Keeps (some k) y w inv =
      unfold get_gucidx in load_idx-Keeps (lookup k nameinfo_map) y w (lookup-InTable k) inv

  load_entries-Keeps :
      (es : Entries) (w : World f.Real)
      → LoadInv f before w
      → Keeps f before
          (ints_after es w.gucstate.vals.int_vals)
          (load_entries f (tables f reload) w es)
  unfolding load_entries ints_after
  load_entries-Keeps nil w inv = (w, refl, inv, refl)
  load_entries-Keeps (cons name val es) w inv =
      let (w1, e1, inv1, i1) = load_entry-Keeps (yaml_try_tostr name) val w inv in
      let (w2, e2, inv2, i2) = load_entries-Keeps es w1 inv1 in
      (w2, rw (e1, load_entries) e2, inv2, i2 ∙ ap (ints_after es) i1)

-- The world at boot: the default values, and any state of logging.
abbrev pub booted : (f : Float) → LogState → World f.Real
booted f log = record { gucstate = default_state f; log = log }

abbrev pub IsHash : Yaml → Type 0
IsHash (hash es) = Unit {0}
IsHash _ = ⊥

-- The entries of a file with one more at the end.
abbrev pub snoc : Entries → Yaml → Yaml → Entries
snoc nil k v = cons k v nil
snoc (cons k' v' es) k v = cons k' v' (snoc es k v)

module _ (f : Float) (reload : Str → Bool) (log : LogState) where
  pub boot-LoadInv : LoadInv f log (booted f log)
  unfolding level_of
  boot-LoadInv = record {
    n_bool = refl;
    n_str = refl;
    n_int = refl;
    n_real = refl;
    superuser = refl;
    version = refl;
    encoding = refl;
    client = refl;
    level = (codes "DEBUG2", refl, inl (refl, refl));
  }

  hash_loads :
      (es : Entries) (docs : List Yaml)
      → (w : World f.Real) × (load f (tables f reload) (booted f log) (ok (hash es ∷ docs)) ≡ ok w)
        × LoadInv f log w
        × (w.gucstate.vals.int_vals ≡ ints_after es (booted f log).gucstate.vals.int_vals)
  unfolding load load_docs load_doc
  hash_loads es docs =
      let (w, e, inv, ints) = load_entries-Keeps f reload log es (booted f log) boot-LoadInv in
      (w, rw e (unfold or_panic in refl), inv, ints)

  -- From the defaults, a file whose first document is a hash loads whatever its entries are, and
  -- the invariant holds of the result: the internal variables have their boot values, the log level
  -- is a known one, and logging was set to it unless the level is the boot value, for which logging
  -- may be as it was before. Without a document the defaults stay, and a first document that is no
  -- hash is an error.
  pub load_total :
      (es : Entries) (docs : List Yaml) (doc : Yaml)
      → ¬ IsHash doc
      → ((w : World f.Real) × (load f (tables f reload) (booted f log) (ok (hash es ∷ docs)) ≡ ok w)
          × LoadInv f log w)
        × (load f (tables f reload) (booted f log) (ok []) ≡ ok (booted f log))
        × ((e : AnyError) × (load f (tables f reload) (booted f log) (ok (doc ∷ docs)) ≡ err e))
  unfolding load load_docs
  load_total es docs doc odd =
      let (w, e, inv, ints) = hash_loads es docs in
      ((w, e, inv), refl, (unknown_yaml f (tables f reload), not_hash doc odd))
    where
      not_hash :
          (doc : Yaml)
          → ¬ IsHash doc
          → load_doc f (tables f reload) (booted f log) doc ≡ err (unknown_yaml f (tables f reload))
      not_hash (hash es) odd = absurd (odd tt)
      not_hash _ odd = unfold load_doc in refl

  -- A file loads, and then `get_int` returns what the entries leave, one after the other, in the boot
  -- values: the last entry that names the variable and has a usable value decides.
  pub load_ints :
      (es : Entries) (docs : List Yaml) (i : ℕ)
      → (w : World f.Real) × (load f (tables f reload) (booted f log) (ok (hash es ∷ docs)) ≡ ok w)
        × (get_int w.gucstate i ≡ get_elem? (ints_after es (default_state f).vals.int_vals) i)
  unfolding get_int
  load_ints es docs i = let (w, e, inv, ints) = hash_loads es docs in (w, e, rw ints refl)

  ints_after-snoc :
      (es : Entries) (k v : Yaml) (ints : List ℤ)
      → ints_after (snoc es k v) ints ≡ entry_update (yaml_try_tostr k) v (ints_after es ints)
  unfolding ints_after
  ints_after-snoc nil k v ints = refl
  ints_after-snoc (cons k' v' es) k v ints = ints_after-snoc es k v _

  -- A file whose last entry names an int variable and has an integer loads, and that entry decides
  -- the value, whatever stands above it: the integer cut to 32 bits.
  pub load_last_int :
      (es : Entries) (docs : List Yaml) (name : Str) (i : ℕ) (v : ℤ)
      → lookup name nameinfo_map ≡ some (GucIdx.int_idx i)
      → (w : World f.Real) × (load f
            (tables f reload)
            (booted f log)
            (ok (hash (snoc es (string name) (integer v)) ∷ docs))
          ≡ ok w)
        × (get_int w.gucstate i ≡ some (wrap_i32 v))
  load_last_int es docs name i v at =
      let lt : i < 24 = rw at at (lookup-InTable name) in
      let len : i < length (ints_after es (default_state f).vals.int_vals) =
        (let (w1, e1, inv1, ints1) = hash_loads es docs in rw (← ints1) (rw inv1.n_int lt)) in
      let (w, h, got) = load_ints (snoc es (string name) (integer v)) docs i in
      (
        w,
        h,
        got
            ∙ rw (ints_after-snoc es (string name) (integer v) (default_state f).vals.int_vals) (
                unfold entry_update yaml_try_tostr in
                rw at (
                  unfold yaml_try_toi32 in
                  get_elem?-set_self (ints_after es (default_state f).vals.int_vals) i _ len)),
      )
