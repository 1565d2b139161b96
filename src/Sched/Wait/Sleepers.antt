-- ===== src/Sched/Wait/Sleepers.antt =====
-- The processes that sleep are outside the run queue, and `wakeup1` of p4/src/proc.c keeps it so.
use cs537_spring.Prelude.{
  ℕ, zero, suc, ◌+◌, ◌≡◌, ◌≢◌, ◌≤◌, ◌<◌, arith, ap, sym, ◌∙◌, Bool, true, false, List, [], ◌∷◌,
  ◌++◌, All, if◌then◌else◌, Bool-cases, inl, inr,
}
use cs537_spring.Sched.Proc.{Proc, Chan, nproc, Kernel, Returns, Returns-mono, is_sleeping}
use cs537_spring.Sched.Queue.Chain.{IsQueue, NotIn, Distinct, NotIn-frame}
use cs537_spring.Sched.Table.{wakeup1}
use cs537_spring.Sched.Table.Wakeup.{is_due, woken, after_wakeup, in_range, Woke}
use cs537_spring.Sched.Table.Wakeup.Loop.{wakeup1-Woke}

-- The queue, and the processes that sleep: none of them is in the queue, and no two have one pid.
pub record Sleepers (k : Kernel) (xs : List ℕ) : Type 0 where
  pub queue : IsQueue k xs
  pub outside : (y : ℕ) → is_sleeping (k.procs y).state ≡ true → NotIn k.procs y xs
  pub apart :
      (i j : ℕ)
      → i ≢ j
      → is_sleeping (k.procs i).state ≡ true
      → is_sleeping (k.procs j).state ≡ true
      → (k.procs i).pid ≢ (k.procs j).pid

due_sleeps :
    (chan : Chan) (now : ℕ) (c : Proc) → is_due chan now c ≡ true → is_sleeping c.state ≡ true
due_sleeps chan now c h = ground arith

module _ (f : ℕ → Proc)
    (apart : (i j : ℕ)
      → i ≢ j
      → is_sleeping (f i).state ≡ true
      → is_sleeping (f j).state ≡ true
      → (f i).pid ≢ (f j).pid)
    (chan : Chan) (now : ℕ) where
  -- A sleeping process is not among the woken ones, if it is none of the slots that are due.
  NotIn-woken :
      (n i p : ℕ)
      → is_sleeping (f p).state ≡ true
      → ((j : ℕ) → i ≤ j → j < i + n → is_due chan now (f j) ≡ true → j ≢ p)
      → NotIn f p (woken chan now f n i)
  unfolding woken
  NotIn-woken zero i p s h = tt
  NotIn-woken (suc n) i p s h =
      let rest = NotIn-woken n (i + 1) p s (λ j lo hi. h j (omega arith) (omega arith)) in
      elim (Bool-cases (is_due chan now (f i))) [
        | inl d ↦
            rw d
              (apart i p (h i (omega arith) (omega arith) d) (due_sleeps chan now (f i) d) s, rest)
        | inr d ↦ rw d rest
      ]

  Distinct-woken : (n i : ℕ) → Distinct f (woken chan now f n i)
  unfolding woken
  Distinct-woken zero i = tt
  Distinct-woken (suc n) i = elim (Bool-cases (is_due chan now (f i))) [
    | inl d ↦ rw d (
      NotIn-woken n (i + 1) i (due_sleeps chan now (f i) d) (λ j lo hi _ e. omega arith),
      Distinct-woken n (i + 1),
    )
    | inr d ↦ rw d (Distinct-woken n (i + 1))
  ]

  outside-woken :
      (xs : List ℕ) (n i : ℕ)
      → ((y : ℕ) → is_sleeping (f y).state ≡ true → NotIn f y xs)
      → All (λ w. NotIn f w xs) (woken chan now f n i)
  unfolding woken
  outside-woken xs zero i out = tt
  outside-woken xs (suc n) i out = elim (Bool-cases (is_due chan now (f i))) [
    | inl d ↦ rw d (out i (due_sleeps chan now (f i) d), outside-woken xs n (i + 1) out)
    | inr d ↦ rw d (outside-woken xs n (i + 1) out)
  ]

NotIn-append :
    (f : ℕ → Proc) (p : ℕ) (xs ys : List ℕ) → NotIn f p xs → NotIn f p ys → NotIn f p (xs ++ ys)
NotIn-append f p [] ys a b = b
NotIn-append f p (x ∷ xs) ys a b = (a.0, NotIn-append f p xs ys a.1 b)

NotIn-flip :
    (f : ℕ → Proc) (x : ℕ) (xs ys : List ℕ) → All (λ w. NotIn f w (x ∷ xs)) ys → NotIn f x ys
NotIn-flip f x xs [] h = tt
NotIn-flip f x xs (y ∷ ys) h = (λ e. h.0.0 (sym e), NotIn-flip f x xs ys h.1)

outside_tail :
    (f : ℕ → Proc) (x : ℕ) (xs ys : List ℕ)
    → All (λ w. NotIn f w (x ∷ xs)) ys
    → All (λ w. NotIn f w xs) ys
outside_tail f x xs [] h = tt
outside_tail f x xs (y ∷ ys) h = (h.0.1, outside_tail f x xs ys h.1)

Distinct-append :
    (f : ℕ → Proc) (xs ys : List ℕ)
    → Distinct f xs
    → Distinct f ys
    → All (λ w. NotIn f w xs) ys
    → Distinct f (xs ++ ys)
Distinct-append f [] ys a b h = b
Distinct-append f (x ∷ xs) ys a b h = (
  NotIn-append f x xs ys a.0 (NotIn-flip f x xs ys h),
  Distinct-append f xs ys a.1 b (outside_tail f x xs ys h),
)

-- What a call of `wakeup1` leaves of a process.
pub record Slot (chan : Chan) (now : ℕ) (b : Bool) (c c' : Proc) : Type 0 where
  pub pid : c'.pid ≡ c.pid
  pub parent : c'.parent ≡ c.parent
  pub asleep : is_sleeping c'.state ≡ true → is_sleeping c.state ≡ true
  pub passed : is_sleeping c'.state ≡ true → b ≡ true → is_due chan now c ≡ false

pub Woke-Slot :
    (chan : Chan) (now : ℕ) (b : Bool) (c c' : Proc)
    → c' ≡ record (if b then after_wakeup chan now c else c) { next = c'.next }
    → Slot chan now b c c'
Woke-Slot chan now b c c' e = record {
  pid = ap (λ p. p.pid) e ∙ ground arith;
  parent = ap (λ p. p.parent) e ∙ ground arith;
  asleep = λ h. ground (arith, ap (λ p. p.state) e);
  passed = λ h t. ground (arith, ap (λ p. p.state) e);
}

-- `wakeup1` does not panic, and keeps this.
pub wakeup1-Sleepers :
    (chan : Chan) (k : Kernel) (xs : List ℕ)
    → Sleepers k xs
    → Returns
        (λ _ k'. Sleepers k' (xs ++ woken chan k.ticks k.procs nproc 0) × Woke chan k nproc 0 xs k')
        (wakeup1 chan k)
wakeup1-Sleepers chan k xs s =
    let ws : List ℕ = woken chan k.ticks k.procs nproc 0 in
    Returns-mono _ _ (wakeup1 chan k)
      (wakeup1-Woke chan k xs s.queue (
        Distinct-append k.procs xs ws s.queue.distinct
          (Distinct-woken k.procs s.apart chan k.ticks nproc 0)
          (outside-woken k.procs s.apart chan k.ticks xs nproc 0 s.outside)))
      λ _ k' w. (
        record {
          queue = w.queue;
          outside = λ y a.
              NotIn-frame k.procs k'.procs y (xs ++ ws) (λ x. (slot k' w x).pid)
                (NotIn-append k.procs y xs ws (s.outside y ((slot k' w y).asleep a)) (
                  NotIn-woken k.procs s.apart chan k.ticks nproc 0 y ((slot k' w y).asleep a)
                    λ j lo hi d e.
                      due_not (ap (λ x. is_due chan k.ticks (k.procs x)) (sym e) ∙ d)
                        ((slot k' w y).passed a (ground (arith, e)))));
          apart = λ i j ne a b e.
              s.apart i j ne ((slot k' w i).asleep a) ((slot k' w j).asleep b)
                (sym (slot k' w i).pid ∙ e ∙ (slot k' w j).pid);
        },
        w,
      )
  where
    slot :
        (k' : Kernel)
        → Woke chan k nproc 0 xs k'
        → (y : ℕ) → Slot chan k.ticks (in_range 0 nproc y) (k.procs y) (k'.procs y)
    slot k' w y = Woke-Slot chan k.ticks (in_range 0 nproc y) (k.procs y) (k'.procs y) (w.slots y)

    due_not : {b : Bool} → b ≡ true → b ≡ false → ⊥
    due_not x y = cc
