-- ===== src/Sched/Proc.antt =====
-- The data of p4/src/proc.h and the globals of p4/src/proc.c, with commands over them.
-- A `struct proc *` is the index of a slot of `ptable.proc`, and `none` is the null pointer.
-- The counters are of type int and only grow by one at a time: they are plain numbers, since
-- overflow of a signed counter is undefined in C. Memory, open files and saved registers of a
-- process are left out.
use cs537_spring.Prelude.{ℕ, Bool, true, false, Option, update, ◌==◌, if◌then◌else◌}

pub data ProcState : Type 0 where
  unused embryo sleeping runnable running zombie : ProcState

-- What a process sleeps on: the null pointer, the address of `ticks`, or another address.
pub data Chan : Type 0 where
  nowhere on_ticks : Chan
  on : ℕ → Chan

abbrev pub same_chan : Chan → Chan → Bool
same_chan nowhere nowhere = true
same_chan on_ticks on_ticks = true
same_chan (on a) (on b) = a == b
same_chan _ _ = false

pub record Proc : Type 0 where
  pub state : ProcState
  pub pid : ℕ
  pub parent : Option ℕ
  pub chan : Chan
  pub killed : Bool
  pub next : Option ℕ
  pub timeslice : ℕ
  pub compticks : ℕ
  pub schedticks : ℕ
  pub sleepticks : ℕ
  pub switches : ℕ
  pub sleepdeadline : ℕ
  pub activeticks : ℕ
  pub activesleepticks : ℕ

-- Tests on the state of a process.
abbrev pub is_unused : ProcState → Bool
is_unused unused = true
is_unused _ = false

abbrev pub is_runnable : ProcState → Bool
is_runnable runnable = true
is_runnable _ = false

abbrev pub is_sleeping : ProcState → Bool
is_sleeping sleeping = true
is_sleeping _ = false

abbrev pub is_zombie : ProcState → Bool
is_zombie zombie = true
is_zombie _ = false

abbrev pub nproc : ℕ
nproc = 64

-- The kernel's globals. `locked` says that this CPU holds `ptable.lock`, `initproc` is the slot of
-- the first process, and `ticks` is the clock of trap.c.
pub record Kernel : Type 0 where
  pub procs : ℕ → Proc
  pub head : Option ℕ
  pub tail : Option ℕ
  pub nextpid : ℕ
  pub initproc : ℕ
  pub locked : Bool
  pub ticks : ℕ

-- What `panic` is called with, and the read through a null pointer.
pub data Panic : Type 0 where
  acquire_held release_free null_pointer init_exiting sched_lock sched_running out_of_memory : Panic

pub data Result (A : Type 0) : Type 0 where
  ok : A → Kernel → Result A
  panic : Panic → Result A

abbrev pub Command : Type 0 → Type 0
Command A = Kernel → Result A

abbrev pub pure : {A : Type 0} → A → Command A
pure a = ok a

module _ {A B : Type 0} where
  abbrev pub and_then : Result A → (A → Command B) → Result B
  and_then (ok a k) f = f a k
  and_then (panic p) f = panic p

  infixl 5 ◌>>=◌ ◌>>◌
  abbrev pub ◌>>=◌ : Command A → (A → Command B) → Command B
  m >>= f = λ k. and_then (m k) f

  abbrev pub ◌>>◌ : Command A → Command B → Command B
  m >> n = m >>= λ _. n

abbrev pub get : Command Kernel
get k = ok k k

abbrev pub put : Kernel → Command (Unit {0})
put k = λ _. ok tt k

abbrev pub done : Command (Unit {0})
done k = ok tt k

-- `acquire(&ptable.lock)` on a CPU that holds it already panics, and so does a `release` of a lock
-- that is not held. Spinning until another CPU lets go is not seen here.
unfoldable pub acquire : Command (Unit {0})
acquire k = if k.locked then panic acquire_held else ok tt (record k { locked = true })

unfoldable pub release : Command (Unit {0})
release k = if k.locked then ok tt (record k { locked = false }) else panic release_free

-- A write to the slot `p` of the table.
abbrev pub set_proc : Kernel → ℕ → Proc → Kernel
set_proc k p c = record k { procs = update k.procs p c }

-- Total correctness of a command: it does not panic, and its result and final state satisfy `P`.
abbrev pub Returns : {A : Type 0} → (A → Kernel → Type 0) → Result A → Type 0
Returns P (ok a k) = P a k
Returns P (panic _) = ⊥

pub Returns-bind :
    {A B : Type 0} (P : A → Kernel → Type 0) (Q : B → Kernel → Type 0) (r : Result A)
    (f : A → Command B)
    → Returns P r
    → ((a : A) (k : Kernel) → P a k → Returns Q (f a k))
    → Returns Q (and_then r f)
Returns-bind P Q (ok a k) f h next = next a k h
Returns-bind P Q (panic p) f h next = absurd h

pub Returns-mono :
    {A : Type 0} (P Q : A → Kernel → Type 0) (r : Result A)
    → Returns P r
    → ((a : A) (k : Kernel) → P a k → Q a k)
    → Returns Q r
Returns-mono P Q (ok a k) h weaken = weaken a k h
Returns-mono P Q (panic p) h weaken = absurd h
