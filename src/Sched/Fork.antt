-- ===== src/Sched/Fork.antt =====
-- `allocproc`, `fork2` and `fork` of p4/src/proc.c. Whether `kalloc` has a page for the kernel
-- stack and whether `copyuvm` succeeds are the arguments `stack_ok` and `copy_ok`. The trap frame,
-- the open files, the working directory and the name of the child are left out.
pub mod Child
pub mod Refuse
use cs537_spring.Prelude.{
  ℕ, ◌+◌, Bool, true, false, Option, none, some, if◌then◌else◌, ℤ, pos, minus_one, lt_nat, to_nat,
}
use cs537_spring.Sched.Proc.{
  Proc, unused, embryo, runnable, is_unused, nproc, Kernel, ok, Command, pure, ◌>>=◌, ◌>>◌, get,
  acquire, release, set_proc, Result,
}
use cs537_spring.Sched.Queue.{push}
use cs537_spring.Sched.Table.{find, modify, getslice}

-- A slot as `allocproc` initialises it, with the next pid.
abbrev pub fresh_proc : ℕ → Proc → Proc
fresh_proc pid c = record c {
  state = embryo;
  pid = pid;
  compticks = 0;
  schedticks = 0;
  sleepticks = 0;
  switches = 0;
  sleepdeadline = 0;
  activeticks = 0;
  activesleepticks = 0;
}

-- `nextpid++`.
abbrev pub count_pid : Command (Unit {0})
count_pid k = ok tt (record k { nextpid = k.nextpid + 1 })

-- The label `found` of `allocproc`.
abbrev pub init_slot : Bool → ℕ → Command (Option ℕ)
init_slot stack_ok p = do
  k ← get
  modify p (fresh_proc k.nextpid)
  count_pid
  release
  if stack_ok then pure (some p) else do modify p (λ c. record c { state = unused }); pure none

pub alloc_found : Bool → Option ℕ → Command (Option ℕ)
alloc_found stack_ok none = do release; pure none
alloc_found stack_ok (some p) = init_slot stack_ok p

pub allocproc : Bool → Command (Option ℕ)
unfolding alloc_found acquire release
allocproc stack_ok = do
  acquire
  k ← get
  alloc_found stack_ok (find (λ c. is_unused c.state) k.procs nproc 0)

-- `fork2`, with the slot that `allocproc` found for the child of the process `cur`.
fork_into : Bool → ℕ → ℤ → Option ℕ → Command ℤ
fork_into copy_ok cur slice none = pure minus_one
fork_into copy_ok cur slice (some p) =
    if copy_ok
    then (do
      modify p (λ c. record c { parent = some cur })
      k ← get
      acquire
      modify p (λ c. record c { state = runnable; timeslice = to_nat slice })
      push (some p)
      release
      pure (pos (k.procs p).pid))
    else (do modify p (λ c. record c { state = unused }); pure minus_one)

pub fork2 : Bool → Bool → ℕ → ℤ → Command ℤ
unfolding fork_into allocproc
fork2 stack_ok copy_ok cur slice =
    if lt_nat slice 1
    then pure minus_one
    else do p ← allocproc stack_ok; fork_into copy_ok cur slice p

-- `fork` passes on the time slice of the caller.
pub fork : Bool → Bool → ℕ → Command ℤ
unfolding fork2
fork stack_ok copy_ok cur = do
  k ← get
  slice ← getslice (pos (k.procs cur).pid)
  fork2 stack_ok copy_ok cur slice
