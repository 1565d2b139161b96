-- ===== src/Sched/Table/Wakeup.antt =====
-- `wakeup1` of p4/src/proc.c: who is woken, in which order, and what else changes.
pub mod Loop
use cs537_spring.Prelude.{
  ℕ, zero, suc, ◌+◌, ◌≡◌, ◌≢◌, ◌≤◌, refl, Bool, true, false, some, none, arith, List, [], ◌∷◌, ◌++◌,
  All, update, if◌then◌else◌, ltb, leb, ◌&&◌, ◌||◌, not, ap, sym, subst, ◌∙◌, Bool-cases, inl, inr,
}
use mathlib.Core.List.{append_assoc, append-nil}
use cs537_spring.Sched.Proc.{
  Proc, Chan, Kernel, ok, Returns, Returns-bind, Returns-mono, set_proc, runnable, nproc,
}
use cs537_spring.Sched.Queue.Chain.{
  IsQueue, set_proc-IsQueue, NotIn, Distinct, SameBut, Distinct-frame, Distinct-NotIn, SamePid,
  NotIn-frame,
}
use cs537_spring.Sched.Queue.Fifo.{push-IsQueue}
use cs537_spring.Sched.Queue.{push}
use cs537_spring.Sched.Table.{is_ticks, sleeps_on, wake, wake_slot, wake_from, wakeup1}

-- Does a call of `wakeup1` at the time `now` wake this process?
abbrev pub is_due : Chan → ℕ → Proc → Bool
is_due chan now c = sleeps_on chan c && not (is_ticks chan && ltb now c.sleepdeadline)

-- A call on the clock's channel counts a tick of sleep for every process that sleeps there.
abbrev counted : Chan → Proc → Proc
counted chan c =
    if sleeps_on chan c && is_ticks chan then record c { sleepticks = c.sleepticks + 1 } else c

-- A process after the call, but for its link.
abbrev pub after_wakeup : Chan → ℕ → Proc → Proc
after_wakeup chan now c =
    if is_due chan now c
    then record (counted chan c) { state = runnable; activeticks = 0 }
    else counted chan c

-- The slots from `i` on, `n` of them, that a call wakes.
unfoldable pub woken : Chan → ℕ → (ℕ → Proc) → ℕ → ℕ → List ℕ
woken chan now f zero i = []
woken chan now f (suc n) i =
    let rest = woken chan now f n (i + 1) in if is_due chan now (f i) then i ∷ rest else rest

abbrev pub in_range : ℕ → ℕ → ℕ → Bool
in_range i n y = leb i y && ltb y (i + n)

-- The state after the slots from `i` on, `n` of them, have been visited.
pub record Woke (chan : Chan) (k : Kernel) (n i : ℕ) (xs : List ℕ) (k' : Kernel) : Type 0 where
  pub queue : IsQueue k' (xs ++ woken chan k.ticks k.procs n i)
  pub slots :
      (y : ℕ)
      → k'.procs y
        ≡ record (if in_range i n y then after_wakeup chan k.ticks (k.procs y) else k.procs y) {
          next = (k'.procs y).next;
        }
  pub ticks : k'.ticks ≡ k.ticks
  pub locked : k'.locked ≡ k.locked
  pub initproc : k'.initproc ≡ k.initproc

-- `wake` of a process that is not in the queue.
wake-IsQueue :
    (k : Kernel) (p : ℕ) (xs : List ℕ)
    → IsQueue k xs
    → NotIn k.procs p xs
    → Returns
        (λ _ k'.
          IsQueue k' (xs ++ p ∷ [])
          × ((y : ℕ)
              → k'.procs y
                ≡ record (update k.procs p
                    (record (k.procs p) { state = runnable; activeticks = 0 })
                    y) { next = (k'.procs y).next })
          × (k'.ticks ≡ k.ticks)
          × (k'.locked ≡ k.locked)
          × (k'.initproc ≡ k.initproc))
        (wake p k)
unfolding wake
wake-IsQueue k p xs q n =
    let c : Proc = record (k.procs p) { state = runnable } in
    let k₁ : Kernel = set_proc k p c in
    Returns-bind (λ _ k'. IsQueue k' (xs ++ p ∷ []) × SameBut k₁ k') _ (push (some p) k₁) _
      (push-IsQueue k₁ p xs (set_proc-IsQueue k p c xs refl refl q)
        (NotIn-frame k.procs k₁.procs p xs (λ x. ground arith) n))
      λ _ k' r. (
        set_proc-IsQueue k' p _ (xs ++ p ∷ []) refl refl r.0,
        λ y. ground (arith, r.1.procs y),
        r.1.ticks,
        r.1.locked,
        r.1.initproc,
      )

-- The state after slot `i` has been visited.
record Visited (chan : Chan) (k : Kernel) (i : ℕ) (xs : List ℕ) (k' : Kernel) : Type 0 where
  queue : IsQueue k' (if is_due chan k.ticks (k.procs i) then xs ++ i ∷ [] else xs)
  slots :
      (y : ℕ)
      → k'.procs y ≡ record (update k.procs i (after_wakeup chan k.ticks (k.procs i)) y) {
        next = (k'.procs y).next;
      }
  ticks : k'.ticks ≡ k.ticks
  locked : k'.locked ≡ k.locked
  initproc : k'.initproc ≡ k.initproc

-- A process that sleeps on another channel than the clock's, or is not asleep there.
visit_asleep :
    (chan : Chan) (k : Kernel) (i : ℕ) (xs : List ℕ)
    → IsQueue k xs
    → sleeps_on chan (k.procs i) ≡ true
    → is_ticks chan ≡ false
    → NotIn k.procs i xs
    → Returns (λ _ k'. Visited chan k i xs k') (wake i k)
visit_asleep chan k i xs q s t n = Returns-mono _ _ (wake i k) (wake-IsQueue k i xs q n) λ _ k' r.
    record {
      queue = rw (s, t) r.0;
      slots = λ y. ground (arith, r.1 y);
      ticks = r.2;
      locked = r.3;
      initproc = r.4;
    }

-- A process that sleeps until a time has its tick counted, and is woken if the time has come.
visit_ticks :
    (chan : Chan) (k : Kernel) (i : ℕ) (xs : List ℕ)
    → IsQueue k xs
    → sleeps_on chan (k.procs i) ≡ true
    → is_ticks chan ≡ true
    → (is_due chan k.ticks (k.procs i) ≡ true → NotIn k.procs i xs)
    → Returns (λ _ k'. Visited chan k i xs k') (wake_slot chan i k)
unfolding wake_slot
visit_ticks chan k i xs q s t n = elim (Bool-cases (ltb k.ticks (k.procs i).sleepdeadline)) [
  | inl early ↦
      rw (s, t, early)
        (record {
          queue = rw (s, t, early) q₁;
          slots = λ y. ground arith;
          ticks = refl;
          locked = refl;
          initproc = refl;
        })
  | inr late ↦
      rw (s, t, late)
        (Returns-mono _ _ (wake i k₁) (wake-IsQueue k₁ i xs q₁ (out late)) λ _ k' r. record {
          queue = rw (s, t, late) r.0;
          slots = λ y. ground (arith, r.1 y);
          ticks = r.2;
          locked = r.3;
          initproc = r.4;
        })
]
  where
    k₁ : Kernel
    k₁ = set_proc k i (record (k.procs i) { sleepticks = (k.procs i).sleepticks + 1 })

    q₁ : IsQueue k₁ xs
    q₁ = set_proc-IsQueue k i _ xs refl refl q

    out : ltb k.ticks (k.procs i).sleepdeadline ≡ false → NotIn k₁.procs i xs
    out late = NotIn-frame k.procs k₁.procs i xs (λ x. ground arith) (n (rw (s, t, late) refl))

wake_slot-Visited :
    (chan : Chan) (k : Kernel) (i : ℕ) (xs : List ℕ)
    → IsQueue k xs
    → (is_due chan k.ticks (k.procs i) ≡ true → NotIn k.procs i xs)
    → Returns (λ _ k'. Visited chan k i xs k') (wake_slot chan i k)
unfolding wake_slot
wake_slot-Visited chan k i xs q n = elim (Bool-cases (sleeps_on chan (k.procs i))) [
  | inr s ↦ rw s (record {
    queue = rw s q;
    slots = λ y. ground arith;
    ticks = refl;
    locked = refl;
    initproc = refl;
  })
  | inl s ↦ elim (Bool-cases (is_ticks chan)) [
    | inl t ↦ visit_ticks chan k i xs q s t n
    | inr t ↦ rw (s, t) (visit_asleep chan k i xs q s t (n (rw (s, t) refl)))
  ]
]
