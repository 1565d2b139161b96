-- ===== src/Sched/Run.antt =====
-- `scheduler` and `yield` of p4/src/proc.c: one turn of the inner loop, and several of them.
-- What the chosen process does between the two `swtch` calls is the argument `swtch`. The CPU's
-- own `c->proc`, the switch of page tables and the lock, which is held all through, are left out.
pub mod Turn
pub mod Quantum
pub mod Round
pub mod Head
use cs537_spring.Prelude.{
  ℕ, zero, suc, ◌+◌, Bool, true, false, Option, none, some, ltb, not, if◌then◌else◌,
}
use cs537_spring.Sched.Proc.{
  Proc, runnable, running, is_runnable, is_sleeping, Kernel, Result, ok, Command, done, and_then,
  ◌>>◌, set_proc,
}
use cs537_spring.Sched.Queue.{push, pop}

-- A tick is accounted to the process that is about to run.
abbrev pub charge : Proc → Proc
charge c = record c {
  schedticks = c.schedticks + 1;
  activeticks = c.activeticks + 1;
  compticks = if ltb c.timeslice (c.activeticks + 1) then c.compticks + 1 else c.compticks;
  state = running;
}

-- `p->switches++; p->activesleepticks = 0;`
abbrev pub retire : Proc → Proc
retire c = record c { switches = c.switches + 1; activesleepticks = 0 }

-- `p->activeticks = 0;`
abbrev pub reset_ticks : ℕ → Command (Unit {0})
reset_ticks p k = ok tt (set_proc k p (record (k.procs p) { activeticks = 0 }))

abbrev pub requeue : ℕ → Command (Unit {0})
requeue p = push (some p) >> reset_ticks p

-- The process at the head has used up its time slice and its compensation.
unfoldable pub expire : ℕ → Command (Unit {0})
expire p k =
    and_then (pop (set_proc k p (retire (k.procs p))))
      λ _ k₁. if is_sleeping (k₁.procs p).state then ok tt k₁ else requeue p k₁

-- May the process run for another tick?
abbrev pub has_ticks : Proc → Bool
has_ticks c = ltb c.activeticks (c.timeslice + c.activesleepticks)

-- One turn of `while (p != 0)` with the head of the queue given. The result says whether the loop
-- goes on.
unfoldable pub turn_at : (swtch : ℕ → Kernel → Kernel) → Option ℕ → Command Bool
turn_at swtch none k = ok false k
turn_at swtch (some p) k =
    if not (is_runnable (k.procs p).state)
    then and_then (pop k) (λ _ k₁. ok true k₁)
    else if has_ticks (k.procs p)
    then ok true (swtch p (set_proc k p (charge (k.procs p))))
    else and_then (expire p k) (λ _ k₁. ok true k₁)

unfoldable pub turn : (swtch : ℕ → Kernel → Kernel) → Command Bool
unfolding turn_at
turn swtch k = turn_at swtch k.head k

-- The rest of the loop, if it goes on.
abbrev pub go_on : Command (Unit {0}) → Bool → Command (Unit {0})
go_on rest true = rest
go_on rest false = done

-- The inner loop for `n` turns at most.
unfoldable pub turns : (swtch : ℕ → Kernel → Kernel) → ℕ → Command (Unit {0})
turns swtch zero k = ok tt k
turns swtch (suc n) k = and_then (turn swtch k) (go_on (turns swtch n))

-- `yield`, called at a timer interrupt: the process is made runnable and goes back to the
-- scheduler. It stays where it is in the queue.
abbrev pub yield_cpu : ℕ → Kernel → Kernel
yield_cpu p k = set_proc k p (record (k.procs p) { state = runnable })
