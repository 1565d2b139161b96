-- ===== src/Prelude/Maps.antt =====
-- Arrays and memories as functions, with a write at one index.
use Prim.Native.Nat.{ℕ}
use mathlib.Core.Path.{◌≡◌, ap, subst, ◌∙◌}
use mathlib.Core.Logic.{◌≢◌}
use native.Mathlib.Decide.{ℕ_discrete}
use native.Mathlib.Omega.{arith}
use cs537_spring.Prelude.Tests.{◌==◌, if◌then◌else◌}

module _ {ℓ} {A : Type ℓ} where
  abbrev pub update : (ℕ → A) → ℕ → A → ℕ → A
  update f i v j = if i == j then v else f j

  pub update_self : (f : ℕ → A) (i : ℕ) (v : A) → update f i v i ≡ v
  update_self f i v = ground arith

  pub update-ne : (f : ℕ → A) (i j : ℕ) (v : A) → i ≢ j → update f i v j ≡ f j
  update-ne f i j v h = ground arith

-- An involution on one value of a map of maps, applied twice.
pub update_twice :
    (f : ℕ → ℕ → ℕ) (g : (ℕ → ℕ) → ℕ → ℕ) (n k j : ℕ)
    → (n ≡ k → g (g (f n)) j ≡ f n j)
    → update (update f n (g (f n))) n (g (update f n (g (f n)) n)) k j ≡ f k j
update_twice f g n k j h =
    let f₁ = update f n (g (f n)) in
    elim (ℕ_discrete n k) [
      | yes e ↦
          subst (λ i. update f₁ n (g (f₁ n)) i j ≡ f i j) e
            (ap (λ (x : ℕ → ℕ). x j) (update_self f₁ n (g (f₁ n)))
              ∙ ap (λ (x : ℕ → ℕ). g x j) (update_self f n (g (f n)))
              ∙ h e)
      | no ne ↦
          ap (λ (x : ℕ → ℕ). x j) (update-ne f₁ n k (g (f₁ n)) ne)
          ∙ ap (λ (x : ℕ → ℕ). x j) (update-ne f n k (g (f n)) ne)
    ]
