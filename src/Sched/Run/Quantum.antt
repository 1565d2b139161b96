-- ===== src/Sched/Run/Quantum.antt =====
-- A process that computes without blocking is preempted at each tick (`yield_cpu`). How long the
-- scheduler lets it run before it goes behind the others.
use Prim.Native.Nat.{max}
use cs537_spring.Prelude.{
  ℕ, zero, suc, ◌+◌, ◌-◌, ◌≡◌, ◌≢◌, refl, true, List, ◌∷◌, ◌++◌, [], arith, sym, subst, ap,
}
use cs537_spring.Sched.Proc.{
  Proc, Kernel, runnable, is_runnable, Returns, Returns-bind, set_proc, and_then, ok,
}
use cs537_spring.Sched.Queue.Chain.{IsQueue, set_proc-IsQueue}
use cs537_spring.Sched.Run.{turn, turns, yield_cpu, charge, go_on}
use cs537_spring.Sched.Run.Turn.{Rotated, turn-run, turn-rotate}

-- The compensation ticks among the ticks that the process still has.
abbrev pub compensation : Proc → ℕ
compensation c = c.timeslice + c.activesleepticks - max c.timeslice c.activeticks

-- The process after its last `d` ticks and its way to the tail.
abbrev pub served : ℕ → Proc → Proc
served d c = record c {
  schedticks = c.schedticks + d;
  compticks = c.compticks + compensation c;
  switches = c.switches + 1;
  activeticks = 0;
  activesleepticks = 0;
}

pub record Served (k : Kernel) (x : ℕ) (xs : List ℕ) (d : ℕ) (k' : Kernel) : Type 0 where
  pub queue : IsQueue k' (xs ++ x ∷ [])
  pub self : k'.procs x ≡ record (served d (k.procs x)) { next = (k'.procs x).next }
  pub others : (y : ℕ) → y ≢ x → k'.procs y ≡ record (k.procs y) { next = (k'.procs y).next }
  pub locked : k'.locked ≡ k.locked

-- The state after one tick of the process `x`.
abbrev pub ticked : Kernel → ℕ → Kernel
ticked k x = yield_cpu x (set_proc k x (charge (k.procs x)))

ticked-IsQueue : (k : Kernel) (x : ℕ) (xs : List ℕ) → IsQueue k xs → IsQueue (ticked k x) xs
ticked-IsQueue k x xs q =
    set_proc-IsQueue (set_proc k x (charge (k.procs x))) x _ xs refl refl
      (set_proc-IsQueue k x (charge (k.procs x)) xs refl refl q)

is_runnable-eq : (c : Proc) → is_runnable c.state ≡ true → c.state ≡ runnable
is_runnable-eq c h = ground arith

ticked-Served :
    (k k' : Kernel) (x : ℕ) (xs : List ℕ) (d : ℕ)
    → is_runnable (k.procs x).state ≡ true
    → (k.procs x).activeticks + suc d ≡ (k.procs x).timeslice + (k.procs x).activesleepticks
    → Served (ticked k x) x xs d k'
    → Served k x xs (suc d) k'
ticked-Served k k' x xs d r e s = record {
  queue = s.queue;
  self = ground (arith, s.self, is_runnable-eq (k.procs x) r);
  others = λ y n. ground (arith, s.others y n);
  locked = s.locked;
}

turns-suc :
    (n : ℕ) (k k₁ : Kernel)
    → turn yield_cpu k ≡ ok true k₁
    → turns yield_cpu (suc n) k ≡ turns yield_cpu n k₁
unfolding turns
turns-suc n k k₁ e = ap (λ r. and_then r (go_on (turns yield_cpu n))) e

module _ (Q : Unit {0} → Kernel → Type 0) where
  -- The loop, from the turn that finds the process without ticks.
  rotate_then :
      (n : ℕ) (k : Kernel) (x : ℕ) (xs : List ℕ)
      → IsQueue k (x ∷ xs)
      → is_runnable (k.procs x).state ≡ true
      → (k.procs x).activeticks ≡ (k.procs x).timeslice + (k.procs x).activesleepticks
      → ((k' : Kernel) → Served k x xs 0 k' → Returns Q (turns yield_cpu n k'))
      → Returns Q (turns yield_cpu (suc n) k)
  unfolding turns
  rotate_then n k x xs q r e next =
      Returns-bind (λ more k'. (more ≡ true) × Rotated k x xs k') Q (turn yield_cpu k) _
        (turn-rotate yield_cpu k x xs q r (ground arith))
        λ more k' h. rw h.0 (
          next k' (record {
            queue = h.1.queue;
            self = ground (arith, h.1.self);
            others = h.1.others;
            locked = h.1.locked;
          }))

  pub quantum_then :
      (d n m : ℕ) (k : Kernel) (x : ℕ) (xs : List ℕ)
      → m ≡ d + n
      → IsQueue k (x ∷ xs)
      → is_runnable (k.procs x).state ≡ true
      → (k.procs x).activeticks + d ≡ (k.procs x).timeslice + (k.procs x).activesleepticks
      → ((k' : Kernel) → Served k x xs d k' → Returns Q (turns yield_cpu n k'))
      → Returns Q (turns yield_cpu (suc m) k)
  quantum_then zero n m k x xs c q r e next =
      let c' : m ≡ n = omega arith in rw c' (rotate_then n k x xs q r (omega arith) next)
  quantum_then (suc d) n zero k x xs c q r e next = absurd (omega arith)
  quantum_then (suc d) n (suc m) k x xs c q r e next =
      subst (Returns Q)
        (sym (turns-suc (suc m) k (ticked k x) (turn-run yield_cpu k x xs q r (ground arith))))
        (quantum_then d n m (ticked k x) x xs (omega arith) (ticked-IsQueue k x (x ∷ xs) q)
          (ground arith) (ground arith) λ k' s. next k' (ticked-Served k k' x xs d r e s))

-- A runnable process at the head that computes without blocking, with `d` ticks left of its time
-- slice and its compensation, runs for exactly these `d` ticks; in the turn after them it goes
-- behind the others. Of the ticks, those past the time slice are counted as compensation. The
-- other processes change only in their links.
pub turns-quantum :
    (k : Kernel) (x : ℕ) (xs : List ℕ) (d : ℕ)
    → IsQueue k (x ∷ xs)
    → is_runnable (k.procs x).state ≡ true
    → (k.procs x).activeticks + d ≡ (k.procs x).timeslice + (k.procs x).activesleepticks
    → Returns (λ _ k'. Served k x xs d k') (turns yield_cpu (suc d) k)
unfolding turns
turns-quantum k x xs d q r e =
    quantum_then (λ _ k'. Served k x xs d k') d 0 d k x xs (omega arith) q r e (λ k' s. s)
