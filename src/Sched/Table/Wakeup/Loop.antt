-- ===== src/Sched/Table/Wakeup/Loop.antt =====
-- The whole loop of `wakeup1`: by induction on the slots left.
use cs537_spring.Prelude.{
  ℕ, zero, suc, ◌+◌, ◌≡◌, ◌≤◌, refl, true, false, arith, List, [], ◌∷◌, ◌++◌, if◌then◌else◌, ap,
  sym, subst, ◌∙◌, Bool-cases, inl, inr,
}
use native.Mathlib.Decide.{ℕ_discrete}
use mathlib.Core.List.{append_assoc, append-nil}
use cs537_spring.Sched.Proc.{Proc, Chan, Kernel, Returns, Returns-bind, Returns-mono, nproc}
use cs537_spring.Sched.Queue.Chain.{IsQueue, Distinct, Distinct-frame, Distinct-NotIn, SamePid}
use cs537_spring.Sched.Table.{wake_slot, wake_from, wakeup1}
use cs537_spring.Sched.Table.Wakeup.{
  is_due, after_wakeup, woken, in_range, Woke, Visited, wake_slot-Visited,
}

-- The slots further on are woken as before.
woken-congr :
    (chan : Chan) (now : ℕ) (f g : ℕ → Proc) (n i : ℕ)
    → ((y : ℕ) → i ≤ y → is_due chan now (g y) ≡ is_due chan now (f y))
    → woken chan now g n i ≡ woken chan now f n i
unfolding woken
woken-congr chan now f g zero i h = refl
woken-congr chan now f g (suc n) i h =
    rw (h i (omega arith), woken-congr chan now f g n (i + 1) (λ y l. h y (omega arith)))

woken-Visited :
    (chan : Chan) (k k₁ : Kernel) (n i : ℕ) (xs : List ℕ)
    → Visited chan k i xs k₁
    → woken chan k₁.ticks k₁.procs n (i + 1) ≡ woken chan k.ticks k.procs n (i + 1)
woken-Visited chan k k₁ n i xs v =
    rw v.ticks
      (woken-congr chan k.ticks k.procs k₁.procs n (i + 1) λ y l. ground (arith, v.slots y))

SamePid-Visited :
    (chan : Chan) (k k₁ : Kernel) (i : ℕ) (xs : List ℕ)
    → Visited chan k i xs k₁
    → SamePid k.procs k₁.procs
SamePid-Visited chan k k₁ i xs v x = ground (arith, v.slots x)

woken-suc :
    (chan : Chan) (now : ℕ) (f : ℕ → Proc) (n i : ℕ) (xs : List ℕ)
    → xs ++ woken chan now f (suc n) i
      ≡ (if is_due chan now (f i) then xs ++ i ∷ [] else xs) ++ woken chan now f n (i + 1)
unfolding woken
woken-suc chan now f n i xs = elim (Bool-cases (is_due chan now (f i))) [
  | inl e ↦ rw e (sym (append_assoc xs (i ∷ []) (woken chan now f n (i + 1))))
  | inr e ↦ rw e
]

woken-due :
    (chan : Chan) (now : ℕ) (f : ℕ → Proc) (n i : ℕ)
    → is_due chan now (f i) ≡ true
    → woken chan now f (suc n) i ≡ i ∷ woken chan now f n (i + 1)
unfolding woken
woken-due chan now f n i e = rw e

-- What the loop does to a slot, from the visit of slot `i` and the rest of the loop.
slot_lem :
    (chan : Chan) (k k₁ k' : Kernel) (n i : ℕ) (xs ys : List ℕ) (y : ℕ)
    → Visited chan k i xs k₁
    → Woke chan k₁ n (i + 1) ys k'
    → k'.procs y
      ≡ record (if in_range i (suc n) y then after_wakeup chan k.ticks (k.procs y) else k.procs y) {
        next = (k'.procs y).next;
      }
slot_lem chan k k₁ k' n i xs ys y v w = elim (ℕ_discrete y i) [
  | yes e ↦
      let now : in_range i (suc n) y ≡ true = ground arith in
      let past : in_range (i + 1) n y ≡ false = ground arith in
      rw now (ground (arith, w.slots y, v.slots y, past))
  | no ne ↦ elim (Bool-cases (in_range i (suc n) y)) [
    | inl e ↦
        let later : in_range (i + 1) n y ≡ true = ground arith in
        rw e (ground (arith, w.slots y, v.slots y, later, v.ticks))
    | inr e ↦
        let later : in_range (i + 1) n y ≡ false = ground arith in
        rw e (ground (arith, w.slots y, v.slots y, later))
  ]
]

no_slots : (i y : ℕ) → in_range i 0 y ≡ false
no_slots i y = ground arith

-- From slot `i` on the loop wakes the processes that are due, in the order of the table: they
-- stand behind the queue of before. The others keep all but their links, and a process that
-- sleeps on past this tick has the tick counted.
wake_from-Woke :
    (chan : Chan) (n i : ℕ) (k : Kernel) (xs : List ℕ)
    → IsQueue k xs
    → Distinct k.procs (xs ++ woken chan k.ticks k.procs n i)
    → Returns (λ _ k'. Woke chan k n i xs k') (wake_from chan n i k)
unfolding wake_from woken
wake_from-Woke chan zero i k xs q d = record {
  queue = subst (IsQueue k) (sym (append-nil xs)) q;
  slots = λ y. rw (no_slots i y);
  ticks = refl;
  locked = refl;
  initproc = refl;
}
wake_from-Woke chan (suc n) i k xs q d =
    Returns-bind (λ _ k₁. Visited chan k i xs k₁) _ (wake_slot chan i k) _
      (wake_slot-Visited chan k i xs q λ due.
        Distinct-NotIn k.procs i xs (woken chan k.ticks k.procs n (i + 1))
          (subst (λ r. Distinct k.procs (xs ++ r)) (woken-due chan k.ticks k.procs n i due) d))
      λ _ k₁ v.
        Returns-mono _ _ (wake_from chan n (i + 1) k₁)
          (wake_from-Woke chan n (i + 1) k₁
            (if is_due chan k.ticks (k.procs i) then xs ++ i ∷ [] else xs) v.queue
            (rw (woken-Visited chan k k₁ n i xs v) (
              Distinct-frame k.procs k₁.procs _ (SamePid-Visited chan k k₁ i xs v)
                (subst (Distinct k.procs) (woken-suc chan k.ticks k.procs n i xs) d))))
          λ _ k' w. record {
            queue =
                subst (IsQueue k')
                  (ap (λ r. (if is_due chan k.ticks (k.procs i) then xs ++ i ∷ [] else xs) ++ r)
                      (woken-Visited chan k k₁ n i xs v)
                    ∙ sym (woken-suc chan k.ticks k.procs n i xs))
                  w.queue;
            slots = λ y. slot_lem chan k k₁ k' n i xs _ y v w;
            ticks = w.ticks ∙ v.ticks;
            locked = w.locked ∙ v.locked;
            initproc = w.initproc ∙ v.initproc;
          }

-- `wakeup1` wakes the processes that sleep on the channel and are due, in the order of the table,
-- and puts them behind the others in the queue. Each of them is runnable with no ticks used; a
-- process that sleeps on past this tick of the clock has the tick counted; of all others nothing
-- changes but the link. It is assumed that the queue and the woken processes have different pids.
pub wakeup1-Woke :
    (chan : Chan) (k : Kernel) (xs : List ℕ)
    → IsQueue k xs
    → Distinct k.procs (xs ++ woken chan k.ticks k.procs nproc 0)
    → Returns (λ _ k'. Woke chan k nproc 0 xs k') (wakeup1 chan k)
unfolding wakeup1
wakeup1-Woke chan k xs q d = wake_from-Woke chan nproc 0 k xs q d
