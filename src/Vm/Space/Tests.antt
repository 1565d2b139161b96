-- ===== src/Vm/Space/Tests.antt =====
-- An address space of two pages, and the theorems at it.
use cs537_spring.Prelude.{
  All, List, suc, inr, sym, inl, Bool-cases, false, subst, true, ℕ, zero, suc, ◌+◌, ◌*◌, ◌≡◌, ◌<◌,
  ◌≤◌, refl, arith, none, some, [], ◌∷◌, leb, ltb, ◌==◌, if◌then◌else◌,
}
use cs537_spring.Vm.Word.{pte_page}
use cs537_spring.Vm.Crypt.{kernbase}
use cs537_spring.Vm.Space.{phystop, Space, Returns, entry, deallocuvm, allocuvm}
use cs537_spring.Vm.Space.Entry.{GoodFrame, visible, GoodFree}
use cs537_spring.Vm.Space.Dealloc.{Freed, Owned, deallocuvm-Freed}
use cs537_spring.Vm.Space.Fork.{lookup, setupkvm, copyuvm}
use cs537_spring.Vm.Space.Fork.Keep.{Out, Distinct}
use cs537_spring.Vm.Space.Fork.Copied.{Parent}
use cs537_spring.Vm.Space.Fork.Child.{SetupEnd, ChildEnd, setupkvm-SetupEnd, copyuvm-ChildEnd}
use cs537_spring.Vm.Space.Grow.{Unmapped}
use cs537_spring.Vm.Space.Grow.Loop.{Outcome, allocuvm-Outcome}

-- Pages 0 and 1 are in the frames 2000 and 2001, and two frames are free.
abbrev space : Space
space = record {
  dir = λ d.
      if d == 0
      then some (λ i. if i == 0 then 2000 * 4096 + 7 else if i == 1 then 2001 * 4096 + 7 else 0)
      else none;
  tables = λ d. 1999;
  mem = λ f j. 0;
  free = 2002 ∷ 2003 ∷ [];
  first = 1500;
}

space-GoodFree : GoodFree space
space-GoodFree = ((omega arith, omega arith), ((omega arith, omega arith), tt))

space-Owned : Owned 1 2 space
unfolding entry
space-Owned j w lo hi e =
    let one : j ≡ 1 = omega arith in
    let value : some (2001 * 4096 + 7) ≡ some w =
      subst (λ i. visible (entry i space) ≡ some w) one e in
    subst (λ v. GoodFrame space (pte_page v)) (some_eq (2001 * 4096 + 7) w value)
      (omega arith, omega arith)
  where
    some_eq : (a b : ℕ) → some a ≡ some b → a ≡ b
    some_eq a b q = ground arith

deallocuvm-Freed_example :
    Returns
      (λ r s'. (r ≡ (if leb 8192 100 then 8192 else 100)) × Freed 1 2 space s')
      (deallocuvm 8192 100 space)
deallocuvm-Freed_example = deallocuvm-Freed 8192 100 space (omega arith) space-GoodFree space-Owned

space-Unmapped : Unmapped 2 4 space
unfolding entry
space-Unmapped j lo hi = elim (Bool-cases (j == 2)) [
  | inl two ↦ subst (λ i. visible (entry i space) ≡ none) (sym (two_of j two)) refl
  | inr other ↦ subst (λ i. visible (entry i space) ≡ none) (sym (three_of j lo hi other)) refl
]
  where
    two_of : (j : ℕ) → (j == 2) ≡ true → j ≡ 2
    two_of j e = ground arith

    three_of : (j : ℕ) → 2 ≤ j → j < 4 → (j == 2) ≡ false → j ≡ 3
    three_of j lo hi e = ground arith

allocuvm-Outcome_example :
    Returns
      (λ r s'.
        if leb kernbase 16384
        then (r ≡ 0) × (s' ≡ space)
        else if ltb 16384 8192
        then (r ≡ 8192) × (s' ≡ space)
        else Outcome 2 4 16384 space r s')
      (allocuvm 8192 16384 space)
allocuvm-Outcome_example =
    allocuvm-Outcome 8192 16384 space (omega arith) space-GoodFree space-Unmapped

-- So many frames from `f` on.
frames : ℕ → ℕ → List ℕ
frames zero f = []
frames (suc n) f = f ∷ frames n (f + 1)

-- The same space with a hundred free frames, which is enough for a copy.
abbrev spacious : Space
spacious = record space { free = frames 100 2002 }

frames-GoodFrame : (n f : ℕ) → 1500 ≤ f → f + n ≤ phystop → All (GoodFrame spacious) (frames n f)
unfolding frames
frames-GoodFrame zero f lo hi = tt
frames-GoodFrame (suc n) f lo hi =
    ((lo, omega (arith, hi)), frames-GoodFrame n (f + 1) (omega arith) (omega (arith, hi)))

frames-Out : (n f g : ℕ) → g < f → Out g (frames n f)
unfolding frames
frames-Out zero f g l = tt
frames-Out (suc n) f g l = ((λ e. omega (arith, e)), frames-Out n (f + 1) g (omega arith))

frames-Distinct : (n f : ℕ) → Distinct (frames n f)
unfolding frames
frames-Distinct zero f = tt
frames-Distinct (suc n) f = (frames-Out n (f + 1) f (omega arith), frames-Distinct n (f + 1))

spacious-GoodFree : GoodFree spacious
spacious-GoodFree = frames-GoodFrame 100 2002 (omega arith) (omega arith)

-- The pages of the space as those of a parent.
spacious-Parent : Parent space.dir 2 spacious
unfolding lookup
spacious-Parent zero l = (2000 * 4096 + 7, refl, refl, frames-Out 100 2002 2000 (omega arith))
spacious-Parent (suc zero) l = (2001 * 4096 + 7, refl, refl, frames-Out 100 2002 2001 (omega arith))
spacious-Parent (suc (suc j)) l = absurd (omega arith)

setupkvm-SetupEnd_example : Returns (SetupEnd 0x8_0108 spacious) (setupkvm 0x8_0108 spacious)
setupkvm-SetupEnd_example =
    setupkvm-SetupEnd 0x8_0108 spacious (omega arith) (omega arith) (omega arith) spacious-GoodFree
      (frames-Distinct 100 2002)

copyuvm-ChildEnd_example :
    Returns (ChildEnd 0x8_0108 space.dir 2 spacious) (copyuvm 0x8_0108 space.dir 8192 spacious)
copyuvm-ChildEnd_example =
    copyuvm-ChildEnd 0x8_0108 8192 space.dir spacious (omega arith) (omega arith) (omega arith)
      spacious-GoodFree (frames-Distinct 100 2002) (omega arith) spacious-Parent
