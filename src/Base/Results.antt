-- ===== src/Base/Results.antt =====
-- What a fallible Rust function does: it returns `Ok`, it returns `Err`, or it panics.
use mathlib.Core.Path.{◌≡◌, refl}

module _ {ℓ κ} where
  pub data Outcome (E : Type κ) (A : Type ℓ) : Type (ℓ ⊔ κ) where
    ok : A → Outcome E A
    err : E → Outcome E A
    panic : Outcome E A

-- The `?` operator.
infixl 5 ◌>>=◌
abbrev pub ◌>>=◌ {ℓ ℓ' κ} :
    {E : Type κ} {A : Type ℓ} {B : Type ℓ'} → Outcome E A → (A → Outcome E B) → Outcome E B
ok a >>= f = f a
err e >>= f = err e
panic >>= f = panic

pub bind-eq-ok {ℓ ℓ' κ} :
    {E : Type κ} {A : Type ℓ} {B : Type ℓ'} (m : Outcome E A) (f : A → Outcome E B) {b : B}
    → (m >>= f) ≡ ok b
    → (a : A) × (m ≡ ok a) × (f a ≡ ok b)
bind-eq-ok (ok a) f h = (a, refl, h)
bind-eq-ok (err e) f h = cc
bind-eq-ok panic f h = cc
