-- ===== src/Sched/Wait.antt =====
-- `wait` and `exit` of p4/src/proc.c, each up to its call of `sched`, with the guards of `sched`
-- and the last steps of `userinit`. The address of the process in slot `p` is the channel `on p`.
-- Memory, open files and the working directory of a process are left out.
pub mod Reap
pub mod Sleepers
pub mod Pass
pub mod Exit
pub mod First
use cs537_spring.Prelude.{
  ℕ, zero, suc, ◌+◌, Bool, true, false, not, ◌&&◌, ◌||◌, Option, none, some, ◌==◌, if◌then◌else◌, ℤ,
  pos, minus_one,
}
use cs537_spring.Sched.Proc.{
  null_pointer, ProcState, running, embryo, sleeping, Proc, Chan, nowhere, on, unused, runnable,
  zombie, is_zombie, nproc, Kernel, Result, ok, panic, Command, pure, done, ◌>>=◌, ◌>>◌, get,
  acquire, release, and_then, Panic, init_exiting, sched_lock, sched_running, out_of_memory,
}
use cs537_spring.Sched.Queue.{push}
use cs537_spring.Sched.Table.{find, modify, wakeup1}
use cs537_spring.Sched.Fork.{allocproc}
use cs537_spring.Sched.Sleep.{sleep_before}

-- `p->parent == curproc`.
abbrev pub is_slot : ℕ → Option ℕ → Bool
is_slot cur none = false
is_slot cur (some p) = p == cur

abbrev pub is_child : ℕ → Proc → Bool
is_child cur c = is_slot cur c.parent

abbrev pub is_exited : ℕ → Proc → Bool
is_exited cur c = is_child cur c && is_zombie c.state

-- A slot that `wait` has emptied.
abbrev pub reaped : Proc → Proc
reaped c = record c { pid = 0; parent = none; killed = false; state = unused }

-- A round of `wait`, with the exited child that the scan of the table has stopped at, if any, and
-- whether there was a child at all. No result means that the process sleeps.
abbrev pub round_end : ℕ → Bool → Option ℕ → Command (Option ℤ)
round_end cur havekids (some p) k =
    (do modify p reaped; release; pure (some (pos (k.procs p).pid))) k
round_end cur havekids none k =
    if not havekids || (k.procs cur).killed
    then (do release; pure (some minus_one)) k
    else ok none k

abbrev pub is_some : Option ℕ → Bool
is_some none = false
is_some (some p) = true

unfoldable pub wait_round : ℕ → Command (Option ℤ)
wait_round cur = do
  k ← get
  round_end cur (is_some (find (is_child cur) k.procs nproc 0))
      (find (is_exited cur) k.procs nproc 0)

-- `wait` up to its first sleep: `sleep(curproc, &ptable.lock)`.
abbrev pub or_sleep : ℕ → Option ℤ → Command (Option ℤ)
or_sleep cur (some r) = pure (some r)
or_sleep cur none = do sleep_before true (on cur) cur; pure none

unfoldable pub wait_before : ℕ → Command (Option ℤ)
wait_before cur = do acquire; r ← wait_round cur; or_sleep cur r

-- The body of the loop of `exit`: a child passes to the first process, which is woken for an exited
-- one.
unfoldable pub pass_child : ℕ → ℕ → Command (Unit {0})
pass_child cur p k =
    if is_child cur (k.procs p)
    then (do
      modify p (λ c. record c { parent = some k.initproc })
      if is_zombie (k.procs p).state then wakeup1 (on k.initproc) else done)
        k
    else ok tt k

unfoldable pub pass_from : ℕ → ℕ → ℕ → Command (Unit {0})
unfolding pass_child
pass_from cur zero i = done
pass_from cur (suc n) i = pass_child cur i >> pass_from cur n (i + 1)

abbrev pub parent_chan : Option ℕ → Chan
parent_chan none = nowhere
parent_chan (some p) = on p

-- `exit` up to `sched`, from the wakeup of the parent on.
unfoldable pub exit_locked : ℕ → Chan → Command (Unit {0})
unfolding pass_from
exit_locked cur chan = do
  wakeup1 chan
  pass_from cur nproc 0
  modify cur (λ c. record c { state = zombie })

unfoldable pub exit_before : ℕ → Command (Unit {0})
unfolding exit_locked
exit_before cur k =
    if cur == k.initproc
    then panic init_exiting
    else and_then (acquire k) (λ _. exit_locked cur (parent_chan (k.procs cur).parent))

-- The guards of `sched` on the lock and the state.
abbrev pub is_running : ProcState → Bool
is_running unused = false
is_running embryo = false
is_running sleeping = false
is_running runnable = false
is_running running = true
is_running zombie = false

unfoldable pub sched_guards : ℕ → Command (Unit {0})
sched_guards cur k =
    if not k.locked
    then panic sched_lock
    else if is_running (k.procs cur).state
    then panic sched_running
    else ok tt k

-- `userinit`: whether a slot has a stack and a page table is an argument.
abbrev pub first_user : Bool → Option ℕ → Command (Unit {0})
first_user table_ok none k = panic null_pointer
first_user table_ok (some p) k =
    (do
      (λ k₂. ok tt (record k₂ { initproc = p }))
      if table_ok then done else (λ k₂. panic out_of_memory)
      acquire
      modify p (λ c. record c { state = runnable; timeslice = 1 })
      push (some p)
      release)
      k

unfoldable pub userinit : Bool → Bool → Command (Unit {0})
userinit stack_ok table_ok = do p ← allocproc stack_ok; first_user table_ok p
