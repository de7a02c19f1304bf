-- ===== src/Guc/Load/Loaded.antt =====
-- guc.rs: what holds of a configuration that was loaded.
use kui_ba_db.Base.{◌≡◌, sym, ◌∙◌, List, [], ◌∷◌, Bool, ok, err, panic}
use mathlib.Core.Path.{subst}
use kui_ba_db.Common.{Yaml, nil, hash, other, Float}
use kui_ba_db.Guc.{Str, LogState, World}
use kui_ba_db.Guc.Gucdef.{tables}
use kui_ba_db.Guc.Load.{load}
use kui_ba_db.Guc.Load.Invariant.{LoadInv}
use kui_ba_db.Guc.Load.Total.{booted, boot-LoadInv, IsHash, load_total}
use kui_ba_db.Utils.Err.{Fallible}

ok-injective : {A : Type 0} {a b : A} → ◌≡◌ {A = Fallible A} (ok a) (ok b) → a ≡ b
ok-injective e = cc

module _ (f : Float) (reload : Str → Bool) (log : LogState) (g : World f.Real) where
  odd_doc :
      (doc : Yaml) (docs : List Yaml)
      → ¬ IsHash doc
      → load f (tables f reload) (booted f log) (ok (doc ∷ docs)) ≡ ok g
      → LoadInv f log g
  odd_doc doc docs odd e = let (_, _, (x, ex)) = load_total f reload log nil docs doc odd in cc

  -- Whatever the file holds: if it loads, the invariant holds.
  pub load-LoadInv :
      (docs : Fallible (List Yaml))
      → load f (tables f reload) (booted f log) docs ≡ ok g
      → LoadInv f log g
  load-LoadInv (err x) e = unfold load in cc
  load-LoadInv panic e = unfold load in cc
  load-LoadInv (ok []) e =
      let (_, same, _) = load_total f reload log nil [] other (λ h. h) in
      subst (LoadInv f log) (ok-injective (sym same ∙ e)) (boot-LoadInv f reload log)
  load-LoadInv (ok (hash es ∷ docs)) e =
      let ((w, ew, inv), _, _) = load_total f reload log es docs other (λ h. h) in
      subst (LoadInv f log) (ok-injective (sym ew ∙ e)) inv
  load-LoadInv (ok (doc ∷ docs)) e = odd_doc doc docs (λ h. h) e
