-- ===== src/Common/State.antt =====
-- Code that changes a state and may throw: a throw keeps the state that it left behind.
use mathlib.Core.Bool.{Bool, true, false}
use mathlib.Core.Path.{◌≡◌, refl}
use cf_workers_vpsmonitor.Common.Outcomes.{Result, ok, throw}

abbrev pub M : Type 0 → Type 0 → Type 0 → Type 0
M E S A = S → Result E A × S

abbrev pub bind_from : {E S A B : Type 0} → Result E A × S → (A → M E S B) → Result E B × S
bind_from (ok a, s) f = f a s
bind_from (throw e, s) f = (throw e, s)

infixl 5 ◌>>=◌ ◌>>◌
abbrev pub ◌>>=◌ : {E S A B : Type 0} → M E S A → (A → M E S B) → M E S B
◌>>=◌ m f s = bind_from (m s) f

abbrev pub ◌>>◌ : {E S B : Type 0} → M E S (Unit {0}) → M E S B → M E S B
◌>>◌ m k s = bind_from (m s) (λ _. k)

abbrev pub pure : {E S A : Type 0} → A → M E S A
pure a s = (ok a, s)

abbrev pub fail : {E S A : Type 0} → E → M E S A
fail e s = (throw e, s)

abbrev pub get : {E S A : Type 0} → (S → A) → M E S A
get f s = (ok (f s), s)

abbrev pub modify : {E S : Type 0} → (S → S) → M E S (Unit {0})
modify f s = (ok tt, f s)

-- `if (bad) throw e`
abbrev pub refuse : {E S : Type 0} → Bool → E → M E S (Unit {0})
refuse true e s = (throw e, s)
refuse false e s = (ok tt, s)

-- Code that returned had passed its test.
pub refuse-passed :
    {E S B : Type 0} (bad : Bool) (e : E) (m : M E S B) (s : S) (b : B)
    → ((refuse bad e >> m) s).0 ≡ ok b
    → (bad ≡ false) × ((m s).0 ≡ ok b)
refuse-passed true e m s b h = cc
refuse-passed false e m s b h = (refl, h)
