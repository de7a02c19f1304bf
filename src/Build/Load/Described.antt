-- ===== src/Build/Load/Described.antt =====
-- build.rs: what `load_gucs` makes of the entries of the file, field by field.
use kui_ba_db.Base.{
  ◌≡◌, refl, sym, ap, arith, ◌∙◌, ◌⊎◌, inl, inr, List, [], ◌∷◌, Bytes, true, Bool-cases, Option,
  none, some, ok,
}
use mathlib.Core.Logic.{◌↔◌}
use mathlib.Core.Path.{subst}
use kui_ba_db.Base.Text.{codes}
use kui_ba_db.Common.{Yaml, Items, array, end, item, yaml_try_tostr}
use kui_ba_db.Build.{
  as_str, no_gucs, Guc, Gucs, index, required, or_zero, guc_of, new_guc, load_gucs,
}
use kui_ba_db.Build.Load.{add_new, new_gucs, of_type, all_known, sorted, load_gucs-sorted}

-- The texts that an entry must have, and those that it may leave out.
pub record Described (y : Yaml) (g : Guc) : Type 0 where
  pub name : as_str (index y (codes "name")) ≡ some g.name
  pub context : as_str (index y (codes "context")) ≡ some g.context
  pub short_desc : as_str (index y (codes "short_desc")) ≡ some g.short_desc
  pub vartype : as_str (index y (codes "vartype")) ≡ some g.vartype
  pub boot_val : yaml_try_tostr (index y (codes "boot_val")) ≡ some g.boot_val
  pub flags :
      (as_str (index y (codes "flags")) ≡ some g.flags)
      ⊎ ((as_str (index y (codes "flags")) ≡ none) × (g.flags ≡ codes "0"))
  pub long_desc : as_str (index y (codes "long_desc")) ≡ g.long_desc
  pub preassign : as_str (index y (codes "preassign")) ≡ g.preassign
  pub show : as_str (index y (codes "show")) ≡ g.show

pub data AllDescribed : Items → List Guc → Type 0 where
  no_entry : AllDescribed end []
  entry :
      {y : Yaml} {ys : Items} {g : Guc} {gs : List Guc}
      → Described y g
      → AllDescribed ys gs
      → AllDescribed (item y ys) (g ∷ gs)

-- The four tables of variables of known types: those of the type, in the order of the file.
pub record Tables (ys : Items) (gucs : Gucs) : Type 0 where
  pub all : List Guc
  pub described : AllDescribed ys all
  pub known : all_known all ≡ true
  pub tables : gucs ≡ record {
    bool_gucs = of_type (codes "BOOL") all;
    int_gucs = of_type (codes "INT") all;
    str_gucs = of_type (codes "STR") all;
    real_gucs = of_type (codes "REAL") all;
  }

same_some : {A : Type 0} {x y : A} → some x ≡ some y → x ≡ y
same_some e = ground arith

or_zero_cases : (o : Option Bytes) → (o ≡ some (or_zero o)) ⊎ ((o ≡ none) × (or_zero o ≡ codes "0"))
unfolding or_zero
or_zero_cases none = inr (refl, refl)
or_zero_cases (some v) = inl refl

or_zero-flags :
    (o : Option Bytes) (v : Bytes) → (o ≡ some v) ⊎ ((o ≡ none) × (v ≡ codes "0")) → or_zero o ≡ v
unfolding or_zero
or_zero-flags o v (inl e) = rw e refl
or_zero-flags o v (inr (e, z)) = rw e (sym z)

guc_of-Described :
    (y : Yaml) (g : Guc) (n c d t b : Option Bytes)
    → as_str (index y (codes "name")) ≡ n
    → as_str (index y (codes "context")) ≡ c
    → as_str (index y (codes "short_desc")) ≡ d
    → as_str (index y (codes "vartype")) ≡ t
    → yaml_try_tostr (index y (codes "boot_val")) ≡ b
    → guc_of y (required n c d t b) ≡ some g
    → Described y g
unfolding guc_of required
guc_of-Described y g (some n) (some c) (some d) (some t) (some b) en ec ed et eb h =
    subst (Described y) (same_some h) (record {
      name = en;
      context = ec;
      short_desc = ed;
      vartype = et;
      boot_val = eb;
      flags = or_zero_cases (as_str (index y (codes "flags")));
      long_desc = refl;
      preassign = refl;
      show = refl;
    })
guc_of-Described y g _ _ _ _ _ en ec ed et eb h = cc

new_guc-Described : (y : Yaml) (g : Guc) → new_guc y ≡ some g → Described y g
unfolding new_guc
new_guc-Described y g h = guc_of-Described y g _ _ _ _ _ refl refl refl refl refl h

Described-new_guc : (y : Yaml) (g : Guc) → Described y g → new_guc y ≡ some g
unfolding new_guc guc_of required
Described-new_guc y g d =
    rw
      (
        d.name,
        d.context,
        d.short_desc,
        d.vartype,
        d.boot_val,
        or_zero-flags _ _ d.flags,
        d.long_desc,
        d.preassign,
        d.show,
      )
      refl

add_new_cases :
    (g : Option Guc) (gs : Option (List Guc)) (l : List Guc)
    → add_new g gs ≡ some l
    → (x : Guc) × (xs : List Guc) × (g ≡ some x) × (gs ≡ some xs) × (l ≡ x ∷ xs)
add_new_cases (some x) (some xs) l h = (x, xs, refl, refl, sym (same_some h))
add_new_cases none gs l h = cc
add_new_cases (some x) none l h = cc

new_gucs-AllDescribed : (ys : Items) (l : List Guc) → new_gucs ys ≡ some l → AllDescribed ys l
new_gucs-AllDescribed end l h = subst (AllDescribed end) (same_some h) no_entry
new_gucs-AllDescribed (item y ys) l h =
    let (x, xs, ex, exs, e) = add_new_cases (new_guc y) (new_gucs ys) l h in
    subst (AllDescribed (item y ys)) (sym e)
      (entry (new_guc-Described y x ex) (new_gucs-AllDescribed ys xs exs))

AllDescribed-new_gucs : (ys : Items) (l : List Guc) → AllDescribed ys l → new_gucs ys ≡ some l
AllDescribed-new_gucs _ _ no_entry = refl
AllDescribed-new_gucs _ _ (entry {y = y} {ys = ys} {g = g} {gs = gs} d ds) =
    rw (Described-new_guc y g d, AllDescribed-new_gucs ys gs ds) refl

-- On a file whose first document is an array, load_gucs returns tables exactly if every entry has
-- the texts name, context, short_desc and vartype and a boot_val, and the type INT, BOOL, STR or
-- REAL: each table has the entries of its type, in the order of the file, with their texts, flags
-- of 0 where they have none, and the other texts that they have. Everywhere else it panics (`none`).
pub load_gucs_iff :
    (ys : Items) (docs : List Yaml) (gucs : Gucs)
    → (load_gucs (ok (array ys ∷ docs)) ≡ some gucs) ↔ Tables ys gucs
unfolding no_gucs
load_gucs_iff ys docs gucs = (λ h. to (new_gucs ys) refl (sym (load_gucs-sorted ys docs) ∙ h), from)
  where
    to : (o : Option (List Guc)) → new_gucs ys ≡ o → sorted o ≡ some gucs → Tables ys gucs
    to none e h = cc
    to (some l) e h = elim (Bool-cases (all_known l)) [
      | inl yes_known ↦ record {
        all = l;
        described = new_gucs-AllDescribed ys l e;
        known = yes_known;
        tables = sym (same_some (rw yes_known at h));
      }
      | inr odd ↦ (let h' : none ≡ some gucs = rw odd at h in cc)
    ]

    from : Tables ys gucs → load_gucs (ok (array ys ∷ docs)) ≡ some gucs
    from t =
        load_gucs-sorted ys docs
        ∙ rw (AllDescribed-new_gucs ys t.all t.described, t.known) (ap some (sym t.tables))
