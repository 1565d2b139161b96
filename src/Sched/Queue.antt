-- ===== src/Sched/Queue.antt =====
-- The run queue of p4/src/proc.c: a singly linked list through the `next` fields of the slots.
pub mod Chain
pub mod Fifo
use cs537_spring.Prelude.{ℕ, Option, none, some, update, ◌==◌, if◌then◌else◌}
use cs537_spring.Sched.Proc.{Proc, Kernel, ok, panic, null_pointer, Command, Result}

-- The table after `tail->next = p; p->next = 0`, in this order.
abbrev pub relink : (ℕ → Proc) → ℕ → ℕ → ℕ → Proc
relink f t p =
    let g = update f t (record (f t) { next = some p }) in update g p (record (g p) { next = none })

-- `push` of the slot `p`, by what `head` and `tail` hold.
push_at : ℕ → Kernel → Option ℕ → Option ℕ → Result (Unit {0})
push_at p k none tail = ok tt (record k {
  procs = update k.procs p (record (k.procs p) { next = none });
  head = some p;
  tail = some p;
})
push_at p k (some h) none = panic null_pointer
push_at p k (some h) (some t) = ok tt (record k { procs = relink k.procs t p; tail = some p })

-- `push`: a null pointer is reported and ignored.
unfoldable pub push : Option ℕ → Command (Unit {0})
unfolding push_at
push none k = ok tt k
push (some p) k = push_at p k k.head k.tail

-- `pop`, by what `head` and `tail` hold. An empty queue is reported and left alone; a queue whose
-- head and tail have one pid becomes empty; otherwise the head moves to its successor.
pop_at : Kernel → Option ℕ → Option ℕ → Result (Unit {0})
pop_at k none tail = ok tt k
pop_at k (some h) none = panic null_pointer
pop_at k (some h) (some t) =
    if (k.procs h).pid == (k.procs t).pid
    then ok tt (record k { head = none; tail = none })
    else ok tt (record k { head = (k.procs h).next })

unfoldable pub pop : Command (Unit {0})
unfolding pop_at
pop k = pop_at k k.head k.tail
