-- ===== src/Vm/Copy/Moved.antt =====
-- The bytes that a round of `copyout` of p6/vm.c writes.
use cs537_spring.Prelude.{
  ℕ, ◌+◌, ◌-◌, ◌≡◌, ◌≤◌, ◌<◌, inl, inr, refl, arith, ap, ◌∙◌, true, false, Bool-cases, ◌&&◌, leb,
  ltb, ◌==◌, update, if◌then◌else◌,
}
use cs537_spring.Vm.Word.{pground_down}
use cs537_spring.Vm.Copy.{moved}

update-at :
    (g : ℕ → ℕ → ℕ) (f : ℕ) (v : ℕ → ℕ) (f' j : ℕ)
    → update g f v f' j ≡ (if f == f' then v j else g f' j)
update-at g f v f' j = elim (Bool-cases (f == f')) [ inl e ↦ rw e refl | inr e ↦ rw e refl ]

-- A byte that a piece writes, and one that it does not.
pub moved_inside :
    (g : ℕ → ℕ → ℕ) (bytes : ℕ → ℕ) (f b off n j : ℕ)
    → off ≤ j
    → j < off + n
    → update g f (moved bytes b off n (g f)) f j ≡ bytes (b + (j - off))
moved_inside g bytes f b off n j lo hi =
    let there : (leb off j && ltb j (off + n)) ≡ true = ground arith in
    let same : (f == f) ≡ true = ground arith in
    update-at g f (moved bytes b off n (g f)) f j ∙ rw (same, there) refl

pub moved_outside :
    (g : ℕ → ℕ → ℕ) (bytes : ℕ → ℕ) (f b off n f' j : ℕ)
    → (f ≡ f' → (leb off j && ltb j (off + n)) ≡ false)
    → update g f (moved bytes b off n (g f)) f' j ≡ g f' j
moved_outside g bytes f b off n f' j h = elim (Bool-cases (f == f')) [
  | inr e ↦ update-at g f (moved bytes b off n (g f)) f' j ∙ rw e refl
  | inl e ↦
      let eq : f ≡ f' = ground arith in
      update-at g f (moved bytes b off n (g f)) f' j ∙ rw (e, h eq) (ap (λ k. g k j) eq)
]

pub down_same : (c x : ℕ) → c ≤ x → x < pground_down c + 4096 → pground_down x ≡ pground_down c
down_same c x lo hi = omega arith
