-- ===== src/Sched/Table/Kill.antt =====
-- `kill` of p4/src/proc.c and the run queue.
use cs537_spring.Prelude.{
  ℕ, ◌≡◌, refl, true, false, some, none, arith, List, update, ℤ, pos, minus_one, if◌then◌else◌,
}
use cs537_spring.Sched.Proc.{Proc, Kernel, ok, Returns, set_proc, runnable, is_sleeping}
use cs537_spring.Sched.Queue.Chain.{IsQueue, set_proc-IsQueue, NotIn, NotIn-frame}
use cs537_spring.Sched.Table.{find_pid, kill}

-- A pid that no process has is refused with -1, and nothing changes.
pub kill-error :
    (pid : ℤ) (k : Kernel) → k.locked ≡ false → find_pid k pid ≡ none → kill pid k ≡ ok minus_one k
unfolding kill
kill-error pid k h e = ground arith

-- A process as `kill` leaves it.
abbrev pub killed_proc : Proc → Proc
killed_proc c = record c {
  killed = true;
  state = if is_sleeping c.state then runnable else c.state;
}

-- The first process with the pid is marked as killed, and made runnable if it was asleep. Nothing
-- else changes: neither the queue nor any other process.
pub kill-ok :
    (pid : ℤ) (k : Kernel) (p : ℕ)
    → k.locked ≡ false
    → find_pid k pid ≡ some p
    → kill pid k ≡ ok (pos 0) (set_proc k p (killed_proc (k.procs p)))
unfolding kill
kill-ok pid k p h e = ground arith

-- A process that sleeps outside the queue is runnable after `kill`, and is not in the queue: the
-- scheduler, which looks at nothing but the queue, has no way to it.
pub kill-NotIn :
    (pid : ℤ) (k : Kernel) (p : ℕ) (xs : List ℕ)
    → k.locked ≡ false
    → find_pid k pid ≡ some p
    → is_sleeping (k.procs p).state ≡ true
    → IsQueue k xs
    → NotIn k.procs p xs
    → Returns
        (λ r k'. ((k'.procs p).state ≡ runnable) × IsQueue k' xs × NotIn k'.procs p xs)
        (kill pid k)
kill-NotIn pid k p xs h e s q n =
    let c : Proc = killed_proc (k.procs p) in
    rw (kill-ok pid k p h e) (
      ground arith,
      set_proc-IsQueue k p c xs refl refl q,
      NotIn-frame k.procs (update k.procs p c) p xs (λ x. ground arith) n,
    )
