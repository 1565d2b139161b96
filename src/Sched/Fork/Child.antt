-- ===== src/Sched/Fork/Child.antt =====
-- What `allocproc` and `fork2` do on every branch, and the invariant of table and queue.
use cs537_spring.Prelude.{
  ℕ, ◌+◌, ◌≡◌, ◌≢◌, ◌<◌, refl, Bool, true, false, Option, some, none, arith, List, [], ◌∷◌, ◌++◌,
  All, ap, ℤ, pos, lt_nat, to_nat,
}
use cs537_spring.Sched.Proc.{
  Proc, Kernel, ok, Returns, Returns-bind, nproc, is_unused, unused, runnable, set_proc, and_then,
  acquire, release, pure,
}
use cs537_spring.Sched.Queue.{push}
use cs537_spring.Sched.Queue.Chain.{IsQueue, NotIn, SameBut, set_new-IsQueue, IsQueue-congr}
use cs537_spring.Sched.Queue.Fifo.{push-IsQueue}
use cs537_spring.Sched.Table.{find}
use cs537_spring.Sched.Table.Slice.{find-some}
use cs537_spring.Sched.Fork.{fresh_proc, allocproc, fork_into, fork2}

-- The slot that `allocproc` takes.
abbrev pub free_slot : Kernel → Option ℕ
free_slot k = find (λ c. is_unused c.state) k.procs nproc 0

-- The state after `allocproc` has taken slot `p`, with the slot written as `c`.
abbrev pub allocated : Kernel → ℕ → Proc → Kernel
allocated k p c = record (set_proc k p c) { nextpid = k.nextpid + 1 }

-- With a page for the stack the first unused slot is taken, and has the next pid and no ticks.
pub allocproc-ok :
    (k : Kernel) (p : ℕ)
    → k.locked ≡ false
    → free_slot k ≡ some p
    → allocproc true k ≡ ok (some p) (allocated k p (fresh_proc k.nextpid (k.procs p)))
unfolding allocproc
allocproc-ok k p h e = ground arith

-- With no unused slot nothing changes; with no page the slot stays unused, and its pid is spent.
pub allocproc-error :
    (k : Kernel) (p : ℕ) (stack_ok : Bool)
    → k.locked ≡ false
    → (free_slot k ≡ none → allocproc stack_ok k ≡ ok none k)
      × (free_slot k ≡ some p
          → allocproc false k
            ≡ ok none
                (allocated k p (record (fresh_proc k.nextpid (k.procs p)) { state = unused })))
unfolding allocproc
allocproc-error k p stack_ok h = (λ e. ground arith, λ e. ground arith)

-- The invariant: the queue is well formed, holds no unused slot, and pids below `nextpid` only
-- have been given out.
pub record IsTable (k : Kernel) (xs : List ℕ) : Type 0 where
  pub queue : IsQueue k xs
  pub used : All (λ x. is_unused (k.procs x).state ≡ false) xs
  pub below : (x : ℕ) → (k.procs x).pid < k.nextpid
  pub locked : k.locked ≡ false

-- The child as `fork2` leaves it, but for its link.
abbrev pub child : ℕ → ℕ → ℤ → Proc → Proc
child cur pid slice c = record (fresh_proc pid c) {
  parent = some cur;
  state = runnable;
  timeslice = to_nat slice;
}

-- The state in which `fork2` puts the child on the queue.
abbrev queued : Kernel → ℕ → ℕ → ℤ → Kernel
queued k cur p slice =
    let k₁ = set_proc k p (record (k.procs p) { parent = some cur }) in
    let k₂ = record k₁ { locked = true } in
    set_proc k₂ p (record (k₂.procs p) { state = runnable; timeslice = to_nat slice })

fork_into-push :
    (k : Kernel) (cur p : ℕ) (slice : ℤ)
    → k.locked ≡ false
    → fork_into true cur slice (some p) k
      ≡ and_then
          (push (some p) (queued k cur p slice))
          (λ _ k'. and_then (release k') (λ _. pure (pos (k.procs p).pid)))
unfolding fork_into acquire release
fork_into-push k cur p slice h = ground arith

-- The slots of the queue are other ones than an unused slot.
used-ne :
    (f : ℕ → Proc) (p : ℕ) (xs : List ℕ)
    → is_unused (f p).state ≡ true
    → All (λ x. is_unused (f x).state ≡ false) xs
    → All (λ x. x ≢ p) xs
used-ne f p [] u h = tt
used-ne f p (x ∷ xs) u h = (ground arith, used-ne f p xs u h.1)

-- The child's pid is new.
fresh-NotIn :
    (f g : ℕ → Proc) (p : ℕ) (xs : List ℕ)
    → ((x : ℕ) → x ≢ p → (g x).pid < (g p).pid)
    → All (λ x. x ≢ p) xs
    → NotIn g p xs
fresh-NotIn f g p [] lt out = tt
fresh-NotIn f g p (x ∷ xs) lt out = (λ e. omega (arith, lt x out.0), fresh-NotIn f g p xs lt out.1)

used-frame :
    (f g : ℕ → Proc) (p : ℕ) (xs : List ℕ)
    → ((y : ℕ) → y ≢ p → (g y).state ≡ (f y).state)
    → is_unused (g p).state ≡ false
    → All (λ x. x ≢ p) xs
    → All (λ x. is_unused (f x).state ≡ false) xs
    → All (λ x. is_unused (g x).state ≡ false) (xs ++ p ∷ [])
used-frame f g p [] same u out h = (u, tt)
used-frame f g p (x ∷ xs) same u out h =
    (ground (arith, same x out.0), used-frame f g p xs same u out.1 h.1)

-- What a successful `fork2` has done.
pub record Forked (k : Kernel) (cur p : ℕ) (slice : ℤ) (xs : List ℕ) (r : ℤ) (k' : Kernel)
    : Type 0 where
  pub result : r ≡ pos k.nextpid
  pub table : IsTable k' (xs ++ p ∷ [])
  pub self :
      k'.procs p ≡ record (child cur k.nextpid slice (k.procs p)) { next = (k'.procs p).next }
  pub others : (y : ℕ) → y ≢ p → k'.procs y ≡ record (k.procs y) { next = (k'.procs y).next }
  pub nextpid : k'.nextpid ≡ k.nextpid + 1

-- The state after `allocproc`.
abbrev pub taken : Kernel → ℕ → Kernel
taken k p = allocated k p (fresh_proc k.nextpid (k.procs p))

fork2-alloc :
    (k : Kernel) (cur p : ℕ) (slice : ℤ)
    → k.locked ≡ false
    → lt_nat slice 1 ≡ false
    → free_slot k ≡ some p
    → fork2 true true cur slice k ≡ fork_into true cur slice (some p) (taken k p)
unfolding fork2
fork2-alloc k cur p slice h s e =
    rw s (ap (λ r. and_then r (λ q. fork_into true cur slice q)) (allocproc-ok k p h e))

-- In a well-formed table with a free slot and for a slice of at least 1, and if memory suffices,
-- `fork2` does not panic and returns the next pid. The first free slot holds the child: runnable,
-- with the slice, the pid, the parent and no ticks. It is behind the others in the queue, the table
-- is well-formed again, and of the other processes nothing changes but the link.
pub fork2-Forked :
    (k : Kernel) (cur p : ℕ) (slice : ℤ) (xs : List ℕ)
    → IsTable k xs
    → lt_nat slice 1 ≡ false
    → free_slot k ≡ some p
    → Returns (λ r k'. Forked k cur p slice xs r k') (fork2 true true cur slice k)
unfolding release
fork2-Forked k cur p slice xs t s e = rw (fork2-alloc k cur p slice t.locked s e) (
    rw (fork_into-push k₁ cur p slice t.locked) (
      Returns-bind (λ _ k'. IsQueue k' (xs ++ p ∷ []) × SameBut k₂ k') _ (push (some p) k₂) _
        (push-IsQueue k₂ p xs q₂
          (fresh-NotIn k.procs k₂.procs p xs (λ x ne. ground (arith, t.below x)) out))
        λ _ k' r. rw r.1.locked (record {
          result = ground arith;
          table = record {
            queue = IsQueue-congr k' _ (xs ++ p ∷ []) refl refl refl r.0;
            used =
                used-frame k.procs k'.procs p xs (λ y ne. ground (arith, r.1.procs y))
                  (ground (arith, r.1.procs p)) out t.used;
            below = λ x. ground (arith, r.1.procs x, r.1.nextpid, t.below x);
            locked = refl;
          };
          self = ground (arith, r.1.procs p);
          others = λ y ne. ground (arith, r.1.procs y);
          nextpid = r.1.nextpid;
        })))
  where
    k₁ : Kernel
    k₁ = taken k p

    k₂ : Kernel
    k₂ = queued k₁ cur p slice

    out : All (λ x. x ≢ p) xs
    out = used-ne k.procs p xs (find-some (λ c. is_unused c.state) k.procs nproc 0 p e).0 t.used

    q₂ : IsQueue k₂ xs
    q₂ = set_new-IsQueue _ p _ xs out (
        IsQueue-congr _ _ xs refl refl refl (
          set_new-IsQueue k₁ p _ xs out (
            IsQueue-congr _ k₁ xs refl refl refl
              (set_new-IsQueue k p (fresh_proc k.nextpid (k.procs p)) xs out t.queue))))
