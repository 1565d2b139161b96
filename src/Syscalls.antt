-- ===== src/Syscalls.antt =====
-- The counters of system calls that p2/src adds to xv6: `syscall` of syscall.c, the queries
-- `getnumsyscalls` and `getnumsyscallsgood` of proc.c and sysproc.c, and `allocproc`. A register holds
-- a 32-bit word. The handlers of the system calls are an argument: a number of the table has a
-- function from the state to the word it returns and the state it leaves. The lock of the process
-- table is a flag; taking it twice, or releasing it when it is free, panics (`none`).
pub mod Called
pub mod Count
pub mod Query
mod Tests
use cs537_spring.Prelude.{
  ℕ, zero, suc, ◌+◌, ◌-◌, ◌%◌, ◌^◌, Bool, true, false, not, ◌&&◌, ◌||◌, ltb, Option, none, some,
  List, [], ◌∷◌, ℤ, pos, negsuc, minus_one, eq_int, update, ◌==◌, if◌then◌else◌,
}

pub data ProcState : Type 0 where
  unused : ProcState
  embryo : ProcState
  sleeping : ProcState
  runnable : ProcState
  running : ProcState
  zombie : ProcState

pub record Proc : Type 0 where
  pub state : ProcState
  pub pid : ℕ
  pub eax : ℕ
  pub syscalls : ℕ
  pub syscallsgood : ℕ

-- The process table, the slot of the current process, `nextpid` and `ptable.lock`.
pub record Kernel : Type 0 where
  pub procs : ℕ → Proc
  pub current : ℕ
  pub nextpid : ℕ
  pub locked : Bool

abbrev pub nproc : ℕ
nproc = 64

abbrev pub Handlers : Type 0
Handlers = ℕ → Option (Kernel → ℕ × Kernel)

-- The word for -1.
abbrev pub minus_word : ℕ
minus_word = 2 ^ 32 - 1

abbrev pub modify : ℕ → (Proc → Proc) → Kernel → Kernel
modify p f k = record k { procs = update k.procs p (f (k.procs p)) }

-- The calls that are counted: all but `fork`, `exec`, `sbrk` and the two queries.
abbrev pub is_counted : ℕ → Bool
is_counted num =
    not (num == 1) && (not (num == 7) && (not (num == 12) && (not (num == 22) && not (num == 23))))

abbrev pub count : ℕ → Proc → Proc
count num p =
    if is_counted num
    then (if p.eax == minus_word
        then record p { syscalls = (p.syscalls + 1) % 2 ^ 32 }
        else record p {
          syscalls = (p.syscalls + 1) % 2 ^ 32;
          syscallsgood = (p.syscallsgood + 1) % 2 ^ 32;
        })
    else p

abbrev pub returned : ℕ → ℕ → ℕ × Kernel → Kernel
returned curproc num (r, k) = modify curproc (λ p. count num (record p { eax = r })) k

abbrev pub dispatch : ℕ → ℕ → Kernel → Option (Kernel → ℕ × Kernel) → Kernel
dispatch curproc num k none = modify curproc (λ p. record p { eax = minus_word }) k
dispatch curproc num k (some handler) = returned curproc num (handler k)

-- The handler of a number. A word from 2^31 on is negative as an `int`; the table has 24 entries.
abbrev pub handler_of : Handlers → ℕ → Option (Kernel → ℕ × Kernel)
handler_of handlers num = if ltb 0 num && ltb num 24 then handlers num else none

-- `syscall`.
unfoldable pub syscall : Handlers → Kernel → Kernel
syscall handlers k =
    let num = (k.procs k.current).eax in dispatch k.current num k (handler_of handlers num)

abbrev pub acquire : Kernel → Option Kernel
acquire k = if k.locked then none else some (record k { locked = true })

abbrev pub release : Kernel → Option Kernel
release k = if k.locked then some (record k { locked = false }) else none

-- The loop of the queries: the first slot with the pid, an `int`, of the `n` last ones.
unfoldable pub find_pid : ℕ → ℤ → Kernel → Option ℕ
find_pid zero pid k = none
find_pid (suc n) pid k =
    let rest = find_pid n pid k in
    if eq_int (k.procs (nproc - suc n)).pid pid then some (nproc - suc n) else rest

-- A word as an `int`: those from 2^31 on are negative.
abbrev pub int_of_word : ℕ → ℤ
int_of_word w = if ltb w (2 ^ 31) then pos w else negsuc (2 ^ 32 - 1 - w)

abbrev pub or_minus_one : (Proc → ℕ) → Kernel → Option ℕ → ℤ
or_minus_one field k none = minus_one
or_minus_one field k (some p) = int_of_word (field (k.procs p))

abbrev pub answer : ℤ → Option Kernel → Option (ℤ × Kernel)
answer r none = none
answer r (some k) = some (r, k)

abbrev pub query_locked : (Proc → ℕ) → ℤ → Option Kernel → Option (ℤ × Kernel)
query_locked field pid none = none
query_locked field pid (some k) = answer (or_minus_one field k (find_pid nproc pid k)) (release k)

unfoldable pub getnumsyscalls : ℤ → Kernel → Option (ℤ × Kernel)
getnumsyscalls pid k = query_locked (λ p. p.syscalls) pid (acquire k)

unfoldable pub getnumsyscallsgood : ℤ → Kernel → Option (ℤ × Kernel)
getnumsyscallsgood pid k = query_locked (λ p. p.syscallsgood) pid (acquire k)

-- The system call itself: `argint` finds the pid on the user's stack, or fails.
unfoldable pub sys_getnumsyscalls : Option ℤ → Kernel → Option (ℤ × Kernel)
sys_getnumsyscalls none k = some (minus_one, k)
sys_getnumsyscalls (some pid) k = getnumsyscalls pid k

unfoldable pub sys_getnumsyscallsgood : Option ℤ → Kernel → Option (ℤ × Kernel)
sys_getnumsyscallsgood none k = some (minus_one, k)
sys_getnumsyscallsgood (some pid) k = getnumsyscallsgood pid k

-- `allocproc`: the first slot in state UNUSED, of the `n` last ones. The two resets of the counters
-- stand behind a `goto` and are not executed. The flag says whether there is memory for the stack.
abbrev pub is_unused : ProcState → Bool
is_unused unused = true
is_unused embryo = false
is_unused sleeping = false
is_unused runnable = false
is_unused running = false
is_unused zombie = false

unfoldable pub find_unused : ℕ → Kernel → Option ℕ
find_unused zero k = none
find_unused (suc n) k =
    let rest = find_unused n k in
    if is_unused (k.procs (nproc - suc n)).state then some (nproc - suc n) else rest

abbrev pub alloc_released : Bool → ℕ → Option Kernel → Option (Option ℕ × Kernel)
alloc_released has_memory p none = none
alloc_released true p (some k) = some (some p, k)
alloc_released false p (some k) = some (none, modify p (λ c. record c { state = unused }) k)

abbrev pub not_found : Option Kernel → Option (Option ℕ × Kernel)
not_found none = none
not_found (some k) = some (none, k)

abbrev pub alloc_found : Bool → Kernel → Option ℕ → Option (Option ℕ × Kernel)
alloc_found has_memory k none = not_found (release k)
alloc_found has_memory k (some p) =
    let k₁ = modify p (λ c. record c { state = embryo; pid = k.nextpid }) k in
    alloc_released has_memory p (release (record k₁ { nextpid = k.nextpid + 1 }))

abbrev pub alloc_locked : Bool → Option Kernel → Option (Option ℕ × Kernel)
alloc_locked has_memory none = none
alloc_locked has_memory (some k) = alloc_found has_memory k (find_unused nproc k)

unfoldable pub allocproc : Bool → Kernel → Option (Option ℕ × Kernel)
allocproc has_memory k = alloc_locked has_memory (acquire k)
