-- ===== src/Sched/Fork/Refuse.antt =====
-- The error branches of `fork2`.
use cs537_spring.Prelude.{
  subst, ℕ, ◌≡◌, refl, Bool, true, false, ◌||◌, not, Option, some, none, Option-cases, arith,
  ==_iff, ap, sym, ◌∙◌, ℤ, minus_one, lt_nat, ◌==◌, Bool-cases, inl, inr,
}
use cs537_spring.Sched.Proc.{ProcState, Kernel, Returns, and_then, nproc, is_unused, unused}
use cs537_spring.Sched.Table.Slice.{find-some}
use cs537_spring.Sched.Fork.{allocproc, fork_into, fork2}
use cs537_spring.Sched.Fork.Child.{free_slot, allocproc-ok, allocproc-error}

-- The slice is below 1, no slot is unused, or there is no page for the stack or for the copy.
abbrev pub is_refused : Bool → Bool → ℤ → Option ℕ → Bool
is_refused stack_ok copy_ok slice none = true
is_refused stack_ok copy_ok slice (some p) = lt_nat slice 1 || not stack_ok || not copy_ok

-- Nothing but an unused slot and the next pid has changed.
pub record Refused (k k' : Kernel) : Type 0 where
  pub locked : k'.locked ≡ false
  pub head : k'.head ≡ k.head
  pub tail : k'.tail ≡ k.tail
  pub states : (j : ℕ) → (k'.procs j).state ≡ (k.procs j).state
  pub others : (j : ℕ) → is_unused (k.procs j).state ≡ false → k'.procs j ≡ k.procs j

Refused-refl : (k : Kernel) → k.locked ≡ false → Refused k k
Refused-refl k h = record {
  locked = h;
  head = refl;
  tail = refl;
  states = λ j. refl;
  others = λ j u. refl;
}

state_unused : (s : ProcState) → is_unused s ≡ true → s ≡ unused
state_unused unused h = refl
state_unused s h = absurd (cc h)

-- An unused slot written, and left unused.
Refused-slot :
    (k : Kernel) (p : ℕ) (k' : Kernel)
    → is_unused (k.procs p).state ≡ true
    → (k'.procs p).state ≡ unused
    → ((j : ℕ) → (j == p) ≡ false → k'.procs j ≡ k.procs j)
    → k'.locked ≡ false
    → k'.head ≡ k.head
    → k'.tail ≡ k.tail
    → Refused k k'
Refused-slot k p k' u s other l hd tl = record {
  locked = l;
  head = hd;
  tail = tl;
  states = λ j. elim (Bool-cases (j == p)) [
    | inl y ↦
        ap (λ i. (k'.procs i).state) ((==_iff j p).0 y)
        ∙ s
        ∙ sym (state_unused (k.procs j).state (at j y))
    | inr y ↦ ap (λ c. c.state) (other j y)
  ];
  others = λ j v. elim (Bool-cases (j == p)) [
    | inl y ↦ absurd (true_false (sym (at j y) ∙ v))
    | inr y ↦ other j y
  ];
}
  where
    at : (j : ℕ) → (j == p) ≡ true → is_unused (k.procs j).state ≡ true
    at j y = ap (λ i. is_unused (k.procs i).state) ((==_iff j p).0 y) ∙ u

    true_false : true ≡ false → ⊥
    true_false q = cc

-- `fork2` for a slice below 1, without an unused slot, or without memory for the stack or for the
-- copy of the address space returns -1. The lock is free, the queue and the state of every slot are
-- as before, and so is every slot that is in use.
pub fork2-Refused :
    (stack_ok copy_ok : Bool) (cur : ℕ) (slice : ℤ) (k : Kernel)
    → k.locked ≡ false
    → is_refused stack_ok copy_ok slice (free_slot k) ≡ true
    → Returns (λ r k'. (r ≡ minus_one) × Refused k k') (fork2 stack_ok copy_ok cur slice k)
unfolding fork2 fork_into
fork2-Refused stack_ok copy_ok cur slice k h refused = elim (Bool-cases (lt_nat slice 1)) [
  | inl s ↦ rw s (refl, Refused-refl k h)
  | inr s ↦ rw s (elim (Option-cases (free_slot k)) [
    | inl e ↦
        subst
          (λ r.
            Returns (λ r k'. (r ≡ minus_one) × Refused k k')
              (and_then r (λ p. fork_into copy_ok cur slice p)))
          (sym ((allocproc-error k 0 stack_ok h).0 e)) (refl, Refused-refl k h)
    | inr (p, e) ↦
        slot p e (find-some (λ c. is_unused c.state) k.procs nproc 0 p e).0 stack_ok copy_ok
          (ap (is_refused stack_ok copy_ok slice) (sym e) ∙ refused) s
  ])
]
  where
    slot :
        (p : ℕ)
        → free_slot k ≡ some p
        → is_unused (k.procs p).state ≡ true
        → (stack_ok copy_ok : Bool) → is_refused stack_ok copy_ok slice (some p) ≡ true
        → lt_nat slice 1 ≡ false
        → Returns
            (λ r k'. (r ≡ minus_one) × Refused k k')
            (and_then (allocproc stack_ok k) (λ q. fork_into copy_ok cur slice q))
    slot p e u false copy_ok r s =
        subst
          (λ x.
            Returns (λ r k'. (r ≡ minus_one) × Refused k k')
              (and_then x (λ q. fork_into copy_ok cur slice q)))
          (sym ((allocproc-error k p false h).1 e))
          (refl, Refused-slot k p _ u (ground arith) (λ j y. ground (arith, y)) h refl refl)
    slot p e u true true r s = absurd (no_reason r s)
      where
        no_reason : (lt_nat slice 1 || false || false) ≡ true → lt_nat slice 1 ≡ false → ⊥
        no_reason r s = ground (arith, r, s)
    slot p e u true false r s =
        subst
          (λ x.
            Returns (λ r k'. (r ≡ minus_one) × Refused k k')
              (and_then x (λ q. fork_into false cur slice q)))
          (sym (allocproc-ok k p h e))
          (refl, Refused-slot k p _ u (ground arith) (λ j y. ground (arith, y)) h refl refl)
