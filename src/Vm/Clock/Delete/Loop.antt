-- ===== src/Vm/Clock/Delete/Loop.antt =====
-- The two loops of `wsetdelete` of p6/vm.c: the search for a slot, and the move of those after it.
use native.Mathlib.Decide.{ℕ_discrete}
use cs537_spring.Prelude.{
  update_self, update-ne, update-ne, ℕ, zero, suc, ◌+◌, ◌-◌, ◌%◌, ◌≡◌, ◌≢◌, ◌≤◌, ◌<◌, refl, arith,
  ap, sym, subst, ◌∙◌, true, false, ltb, Option, none, some, update, ◌==◌, if◌then◌else◌,
  Bool-cases, inl, inr,
}
use cs537_spring.Vm.Machine.{clocksize}
use cs537_spring.Vm.Clock.{later, find_slot, shift_from}

-- How far a slot is behind another, going round.
abbrev pub behind : ℕ → ℕ → ℕ
behind i s = (s + 8 - i) % 8

-- The slot that the content of slot `s` comes from, when the slot `i` is deleted.
abbrev pub source : ℕ → ℕ → ℕ → ℕ
source i tail s = if ltb (behind i s) (behind i tail) then (s + 1) % 8 else s

-- Where it goes to.
abbrev pub target : ℕ → ℕ → ℕ → ℕ
target i tail s = if ltb (behind i tail) (behind i s) then s else (s + 7) % 8

pub source-small : (i tail s : ℕ) → s < 8 → source i tail s < 8
source-small i tail s l = ground arith

pub target-small : (i tail s : ℕ) → s < 8 → target i tail s < 8
target-small i tail s l = ground arith

pub source-ne : (i tail s : ℕ) → i < 8 → tail < 8 → s < 8 → s ≢ tail → source i tail s ≢ i
source-ne i tail s li lt ls ne e = ground arith

pub source-target :
    (i tail s : ℕ) → i < 8 → tail < 8 → s < 8 → s ≢ i → source i tail (target i tail s) ≡ s
source-target i tail s li lt ls ne = ground arith

pub target-ne : (i tail s : ℕ) → i < 8 → tail < 8 → s < 8 → s ≢ i → target i tail s ≢ tail
target-ne i tail s li lt ls ne e = ground arith

pub source-injective :
    (i tail s t : ℕ)
    → i < 8
    → tail < 8
    → s < 8
    → t < 8
    → s ≢ tail
    → t ≢ tail
    → s ≢ t
    → source i tail s ≢ source i tail t
source-injective i tail s t li ll ls lt ns nt ne e = ground arith

source-step :
    (i tail s : ℕ)
    → i < 8
    → tail < 8
    → s < 8
    → i ≢ tail
    → s ≢ i
    → (source ((i + 1) % 8) tail s ≡ source i tail s) × (source ((i + 1) % 8) tail s ≢ i)
source-step i tail s li lt ls ne other = (ground arith, λ e. ground arith)

source-first :
    (i tail : ℕ)
    → i < 8
    → tail < 8
    → i ≢ tail
    → (source i tail i ≡ (i + 1) % 8) × (source ((i + 1) % 8) tail i ≡ i)
source-first i tail li lt ne = (ground arith, ground arith)

-- The loop moves the contents of the slots after the deleted one.
pub shift_from_lem :
    (fuel i tail : ℕ) (q : ℕ → ℕ)
    → i < 8
    → tail < 8
    → behind i tail ≤ fuel
    → (q' : ℕ → ℕ) × (shift_from fuel i tail q ≡ some q')
      × ((s : ℕ) → s < 8 → q' s ≡ q (source i tail s))
unfolding shift_from
shift_from_lem zero i tail q li lt enough =
    let here : (i == tail) ≡ true = ground arith in
    (q, rw here refl, λ s ls. ap q {x = s} {y = source i tail s} (ground arith))
shift_from_lem (suc fuel) i tail q li lt enough = elim (Bool-cases (i == tail)) [
  | inl here ↦ (q, rw here refl, λ s ls. ap q {x = s} {y = source i tail s} (ground arith))
  | inr more ↦
      let ne : i ≢ tail = λ e. ground arith in
      let q₁ = update q i (q ((i + 1) % 8)) in
      let (q', run, values) =
        shift_from_lem fuel ((i + 1) % 8) tail q₁ (omega arith) lt (ground arith) in
      (q', rw more run, λ s ls. values s ls ∙ moved_on i tail s q li lt ls ne)
]
  where
    moved_on :
        (i tail s : ℕ) (q : ℕ → ℕ)
        → i < 8
        → tail < 8
        → s < 8
        → i ≢ tail
        → update q i (q ((i + 1) % 8)) (source ((i + 1) % 8) tail s) ≡ q (source i tail s)
    moved_on i tail s q li lt ls ne = elim (ℕ_discrete s i) [
      | yes e ↦
          let f = source-first i tail li lt ne in
          subst
            (λ x. update q i (q ((i + 1) % 8)) (source ((i + 1) % 8) tail x) ≡ q (source i tail x))
            (sym e)
            (ap (update q i (q ((i + 1) % 8))) f.1
              ∙ update_self q i (q ((i + 1) % 8))
              ∙ ap q (sym f.0))
      | no other ↦
          let f = source-step i tail s li lt ls ne other in
          update-ne q i (source ((i + 1) % 8) tail s) (q ((i + 1) % 8)) (λ e. f.1 (sym e))
          ∙ ap q f.0
    ]

-- What the search answers.
abbrev pub FoundSlot : ℕ → ℕ → ℕ → (ℕ → ℕ) → Option ℕ → Type 0
FoundSlot va h i q none = (j : ℕ) → i ≤ j → j < 8 → q ((h + j) % 8) ≢ va
FoundSlot va h i q (some s) = (s < 8) × (q s ≡ va)

pub find_slot-FoundSlot :
    (va h n i : ℕ) (q : ℕ → ℕ) → i + n ≡ 8 → FoundSlot va h i q (find_slot va h n i q)
unfolding find_slot
find_slot-FoundSlot va h zero i q e = λ j lo hi. absurd (omega arith)
find_slot-FoundSlot va h (suc n) i q e = elim (Bool-cases (q ((h + i) % clocksize) == va)) [
  | inl t ↦ rw t (
      pick (find_slot va h n (i + 1) q) (find_slot-FoundSlot va h n (i + 1) q (omega arith))
        (equal (q ((h + i) % 8)) va t))
  | inr t ↦ rw t (
      pass (find_slot va h n (i + 1) q) (find_slot-FoundSlot va h n (i + 1) q (omega arith))
        (other (q ((h + i) % 8)) va t))
]
  where
    equal : (a b : ℕ) → (a == b) ≡ true → a ≡ b
    equal a b t = ground arith

    other : (a b : ℕ) → (a == b) ≡ false → a ≢ b
    other a b t = ground arith

    pick :
        (o : Option ℕ)
        → FoundSlot va h (i + 1) q o
        → q ((h + i) % 8) ≡ va
        → FoundSlot va h i q (later ((h + i) % 8) o)
    pick none f t = (omega arith, t)
    pick (some s) f t = f

    pass : (o : Option ℕ) → FoundSlot va h (i + 1) q o → q ((h + i) % 8) ≢ va → FoundSlot va h i q o
    pass none f t = λ j lo hi. elim (ℕ_discrete j i) [
      | yes e ↦ subst (λ x. q ((h + x) % 8) ≢ va) (sym e) t
      | no ne ↦ f j (omega arith) hi
    ]
    pass (some s) f t = f
