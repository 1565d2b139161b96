-- ===== src/Sched/Table.antt =====
-- The operations of p4/src/proc.c on the process table: `setslice`,
-- `getslice`, `kill`, `wakeup1` and `wakeup`.
pub mod Slice
pub mod Kill
pub mod Wakeup
use cs537_spring.Prelude.{
  ℕ, zero, suc, ◌+◌, Bool, true, false, Option, none, some, ◌==◌, ◌&&◌, ◌||◌, ltb, if◌then◌else◌, ℤ,
  pos, minus_one, lt_nat, eq_int, to_nat,
}
use cs537_spring.Sched.Proc.{
  Proc, Chan, on_ticks, same_chan, runnable, is_sleeping, nproc, Kernel, Result, ok, Command, pure,
  done, and_then, ◌>>=◌, ◌>>◌, get, acquire, release, set_proc,
}
use cs537_spring.Sched.Queue.{push}

-- `for (p = ptable.proc; p < &ptable.proc[NPROC]; p++)` up to the first process that passes the
-- test: `n` slots are left, from slot `i` on.
unfoldable pub find : (Proc → Bool) → (ℕ → Proc) → ℕ → ℕ → Option ℕ
find test f zero i = none
find test f (suc n) i = let rest = find test f n (i + 1) in if test (f i) then some i else rest

abbrev pub find_pid : Kernel → ℤ → Option ℕ
find_pid k pid = find (λ c. eq_int c.pid pid) k.procs nproc 0

-- A write to the slot `p` as a command.
abbrev pub modify : ℕ → (Proc → Proc) → Command (Unit {0})
modify p g k = ok tt (set_proc k p (g (k.procs p)))

-- `setslice`, after its search.
set_found : ℤ → Option ℕ → Command ℤ
set_found slice none = do release; pure minus_one
set_found slice (some p) = do
  modify p (λ c. record c { timeslice = to_nat slice })
  release
  pure (pos 0)

pub setslice : ℤ → ℤ → Command ℤ
unfolding set_found acquire release
setslice pid slice =
    if lt_nat slice 1 || lt_nat pid 0
    then pure minus_one
    else do acquire; k ← get; set_found slice (find_pid k pid)

-- `getslice`, after its search. Where no process has the pid the code calls `acquire` once more.
get_found : Option ℕ → Command ℤ
get_found none = do acquire; pure minus_one
get_found (some p) = do release; k ← get; pure (pos (k.procs p).timeslice)

pub getslice : ℤ → Command ℤ
unfolding get_found acquire release
getslice pid =
    if lt_nat pid 0 then pure minus_one else do acquire; k ← get; get_found (find_pid k pid)

-- `kill`, after its search. A sleeping process is made runnable; it is not put on the queue.
kill_found : Option ℕ → Command ℤ
kill_found none = do release; pure minus_one
kill_found (some p) = do
  modify p
      (λ c. record c { killed = true; state = if is_sleeping c.state then runnable else c.state })
  release
  pure (pos 0)

pub kill : ℤ → Command ℤ
unfolding kill_found acquire release
kill pid = do acquire; k ← get; kill_found (find_pid k pid)

-- Waking the process in slot `p`: runnable, behind the others in the queue, no ticks used.
pub wake : ℕ → Command (Unit {0})
wake p = do
  modify p (λ c. record c { state = runnable })
  push (some p)
  modify p (λ c. record c { activeticks = 0 })

abbrev is_ticks : Chan → Bool
is_ticks on_ticks = true
is_ticks _ = false

abbrev pub sleeps_on : Chan → Proc → Bool
sleeps_on chan c = is_sleeping c.state && same_chan c.chan chan

-- The body of the loop of `wakeup1` at slot `p`: on the clock's channel a process also waits for
-- its deadline.
pub wake_slot : Chan → ℕ → Command (Unit {0})
wake_slot chan p k =
    if sleeps_on chan (k.procs p)
    then if is_ticks chan
      then (do
        modify p (λ c. record c { sleepticks = c.sleepticks + 1 })
        if ltb k.ticks (k.procs p).sleepdeadline then done else wake p)
          k
      else wake p k
    else ok tt k

pub wake_from : Chan → ℕ → ℕ → Command (Unit {0})
wake_from chan zero i = done
wake_from chan (suc n) i = wake_slot chan i >> wake_from chan n (i + 1)

pub wakeup1 : Chan → Command (Unit {0})
unfolding wake_from
wakeup1 chan = wake_from chan nproc 0

pub wakeup : Chan → Command (Unit {0})
wakeup chan = do acquire; wakeup1 chan; release
