-- ===== src/Common/Outcomes.antt =====
-- Code that may throw: a result, and its chaining.
use mathlib.Core.Path.{◌≡◌, refl}

pub data Result {ℓ κ} (E : Type ℓ) (A : Type κ) : Type (ℓ ⊔ κ) where
  ok : A → Result E A
  throw : E → Result E A

infixl 5 ◌>>=◌
abbrev pub ◌>>=◌ {ℓ κ μ} :
    {E : Type ℓ} {A : Type κ} {B : Type μ} → Result E A → (A → Result E B) → Result E B
ok a >>= f = f a
throw e >>= f = throw e

-- A chain that succeeds: its first step does, and then the rest.
pub both_steps {ℓ κ μ} :
    {E : Type ℓ} {A : Type κ} {B : Type μ} (r : Result E A) (next : A → Result E B) {last : B}
    → (r >>= next) ≡ ok last
    → (step : A) × (next step ≡ ok last) × (r ≡ ok step)
both_steps (throw failure) next e = cc
both_steps (ok step) next e = (step, e, refl)
