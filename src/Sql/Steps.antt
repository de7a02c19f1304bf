-- ===== src/Sql/Steps.antt =====
-- Steps of the analysis: a step returns, fails or panics, and leaves a state.
use kui_ba_db.Base.{ok, err, panic}
use kui_ba_db.Utils.Err.{Fallible}

abbrev pub Step {ℓ κ} : Type κ → Type ℓ → Type (ℓ ⊔ κ)
Step S A = S → Fallible A × S

unfoldable pub continue {ℓ μ κ} :
    {S : Type κ} {A : Type ℓ} {B : Type μ} → Fallible A × S → (A → Step S B) → Fallible B × S
continue (ok a, s) f = f a s
continue (err e, s) f = (err e, s)
continue (panic, s) f = (panic, s)

infixl 5 ◌>>=◌
abbrev pub ◌>>=◌ {ℓ μ κ} :
    {S : Type κ} {A : Type ℓ} {B : Type μ} → Step S A → (A → Step S B) → Step S B
◌>>=◌ m f s = continue (m s) f

-- A computed result as a step.
abbrev pub lift {ℓ κ} : {S : Type κ} {A : Type ℓ} → Fallible A → Step S A
lift r s = (r, s)
