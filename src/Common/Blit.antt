-- ===== src/Common/Blit.antt =====
-- `target.set(source, offset)` of a typed array, byte by byte.
use Prim.Native.Nat.{ℕ, zero, suc, ◌≤◌}
use mathlib.Core.Path.{◌≡◌, refl, ap}
use mathlib.Core.List.{List, [], ◌∷◌, ◌++◌}
use native.Mathlib.Omega.{arith}
use cf_workers_vpsmonitor.Common.Lists.{length, drop}

module _ {ℓ} {A : Type ℓ} where
  -- The source over the head of the target.
  abbrev pub overlay : List A → List A → List A
  overlay t [] = t
  overlay [] (y ∷ s) = []
  overlay (x ∷ t) (y ∷ s) = y ∷ overlay t s

  -- JavaScript throws where the source does not fit; here what does not fit is dropped.
  abbrev pub blit : List A → ℕ → List A → List A
  blit t zero s = overlay t s
  blit [] (suc o) s = []
  blit (x ∷ t) (suc o) s = x ∷ blit t o s

module _ {ℓ} {A : Type ℓ} where
  pub overlay_lem : (t s : List A) → length s ≤ length t → overlay t s ≡ s ++ drop (length s) t
  overlay_lem t [] h = refl
  overlay_lem [] (y ∷ s) h = absurd (omega arith)
  overlay_lem (x ∷ t) (y ∷ s) h = ap (λ l. y ∷ l) (overlay_lem t s (omega arith))

  -- What is already written stays, the source follows it, and the rest is untouched.
  pub blit_lem :
      (o : ℕ) (done t s : List A)
      → o ≡ length done
      → length s ≤ length t
      → blit (done ++ t) o s ≡ done ++ (s ++ drop (length s) t)
  blit_lem zero [] t s h k = overlay_lem t s k
  blit_lem zero (x ∷ done) t s h k = absurd (omega arith)
  blit_lem (suc o) [] t s h k = absurd (omega arith)
  blit_lem (suc o) (x ∷ done) t s h k = ap (λ l. x ∷ l) (blit_lem o done t s (omega arith) k)

  pub length-overlay : (t s : List A) → length (overlay t s) ≡ length t
  length-overlay t [] = refl
  length-overlay [] (y ∷ s) = refl
  length-overlay (x ∷ t) (y ∷ s) = ap suc (length-overlay t s)

  pub length-blit : (t : List A) (o : ℕ) (s : List A) → length (blit t o s) ≡ length t
  length-blit t zero s = length-overlay t s
  length-blit [] (suc o) s = refl
  length-blit (x ∷ t) (suc o) s = ap suc (length-blit t o s)
