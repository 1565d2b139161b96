-- ===== src/Sched/Wait/First.antt =====
-- `userinit` of p4/src/proc.c: the first state of the run queue.
use cs537_spring.Prelude.{ℕ, ◌≡◌, ◌≢◌, refl, Bool, true, false, some, none, arith, [], ◌∷◌}
use cs537_spring.Sched.Proc.{
  Kernel, panic, Returns, Returns-bind, runnable, set_proc, and_then, acquire, release,
  null_pointer, out_of_memory,
}
use cs537_spring.Sched.Queue.{push}
use cs537_spring.Sched.Queue.Chain.{IsQueue, SameBut, set_new-IsQueue, IsQueue-congr}
use cs537_spring.Sched.Queue.Fifo.{push-IsQueue}
use cs537_spring.Sched.Fork.{fresh_proc}
use cs537_spring.Sched.Fork.Child.{allocproc-error, free_slot, IsTable, taken, allocproc-ok}
use cs537_spring.Sched.Wait.{first_user, userinit}

-- The first process is ready, with a slice of one tick, and alone in the queue.
pub record Booted (k : Kernel) (p : ℕ) (k' : Kernel) : Type 0 where
  pub table : IsTable k' (p ∷ [])
  pub initproc : k'.initproc ≡ p
  pub self : k'.procs p ≡ record (fresh_proc k.nextpid (k.procs p)) {
    state = runnable;
    timeslice = 1;
    next = (k'.procs p).next;
  }
  pub others : (y : ℕ) → y ≢ p → k'.procs y ≡ record (k.procs y) { next = (k'.procs y).next }

-- The state in which `userinit` puts the process on the queue.
abbrev ready : Kernel → ℕ → Kernel
ready k p =
    let k₁ = record k { initproc = p; locked = true } in
    set_proc k₁ p (record (k₁.procs p) { state = runnable; timeslice = 1 })

first_user-push :
    (k : Kernel) (p : ℕ)
    → k.locked ≡ false
    → first_user true (some p) k ≡ and_then (push (some p) (ready k p)) (λ _ k'. release k')
unfolding acquire release
first_user-push k p h = ground arith

-- In a well-formed table with an empty queue and a free slot, and if memory suffices, `userinit`
-- does not panic. The first free slot holds the first process: ready, with a slice of one tick, and
-- alone in the queue; the table is well-formed.
pub userinit-Booted :
    (k : Kernel) (p : ℕ)
    → IsTable k []
    → free_slot k ≡ some p
    → Returns (λ _ k'. Booted k p k') (userinit true true k)
unfolding userinit release
userinit-Booted k p t e = rw (allocproc-ok k p t.locked e) (
    rw (first_user-push k₁ p t.locked) (
      Returns-bind (λ _ k'. IsQueue k' (p ∷ []) × SameBut k₂ k') _ (push (some p) k₂) _
        (push-IsQueue k₂ p [] q₂ tt)
        λ _ k' r. rw r.1.locked (record {
          table = record {
            queue = IsQueue-congr k' _ (p ∷ []) refl refl refl r.0;
            used = (ground (arith, r.1.procs p), tt);
            below = λ x. ground (arith, r.1.procs x, r.1.nextpid, t.below x);
            locked = refl;
          };
          initproc = r.1.initproc;
          self = ground (arith, r.1.procs p);
          others = λ y ne. ground (arith, r.1.procs y);
        })))
  where
    k₁ : Kernel
    k₁ = taken k p

    k₂ : Kernel
    k₂ = ready k₁ p

    q₂ : IsQueue k₂ []
    q₂ = set_new-IsQueue _ p _ [] tt (
        IsQueue-congr _ _ [] refl refl refl
          (set_new-IsQueue k p (fresh_proc k.nextpid (k.procs p)) [] tt t.queue))

-- Without an unused slot `userinit` goes on through a null pointer; without a page table it panics.
pub userinit-panic :
    (k : Kernel) (p : ℕ) (table_ok : Bool)
    → k.locked ≡ false
    → (free_slot k ≡ none → userinit true table_ok k ≡ panic null_pointer)
      × (free_slot k ≡ some p → userinit true false k ≡ panic out_of_memory)
unfolding userinit
userinit-panic k p table_ok h =
    (λ e. rw ((allocproc-error k p true h).0 e) refl, λ e. rw (allocproc-ok k p h e) refl)
