-- ===== src/Syscalls/Tests.antt =====
-- A table with two processes, and the theorems at it.
use cs537_spring.Prelude.{
  Option, pos, ◌<◌, ◌^◌, subst, ℕ, ◌≡◌, refl, arith, true, false, some, none, List, [], ◌∷◌, ◌==◌,
  if◌then◌else◌,
}
use cs537_spring.Syscalls.{
  syscall, unused, running, Kernel, Handlers, minus_word, getnumsyscalls, getnumsyscallsgood,
  find_unused, nproc,
}
use cs537_spring.Syscalls.Count.{Totals, calls-total}
use cs537_spring.Syscalls.Called.{calls, AllKeep, Keeps}
use cs537_spring.Syscalls.Query.{FirstWith, Answers, getnumsyscalls-FirstWith}

-- Slot 0 runs the process 7; slot 1 was left by a process that had made 5 calls.
abbrev kernel : Kernel
kernel = record {
  procs = λ p.
      if p == 0
      then record { state = running; pid = 7; eax = 0; syscalls = 0; syscallsgood = 0 }
      else record { state = unused; pid = 0; eax = 0; syscalls = 5; syscallsgood = 4 };
  current = 0;
  nextpid = 8;
  locked = false;
}

-- All calls return 3, but `read` fails.
abbrev handlers : Handlers
handlers num = some (λ k. (if num == 5 then minus_word else 3, k))

some_eq : (f g : Kernel → ℕ × Kernel) → some f ≡ some g → f ≡ g
some_eq f g e = cc

handlers-AllKeep : AllKeep handlers
handlers-AllKeep num h e k =
    subst (λ (f : Kernel → ℕ × Kernel). Keeps k (f k).1)
      (some_eq (λ k. (if num == 5 then minus_word else 3, k)) h e)
      (record { current = refl; syscalls = refl; syscallsgood = refl })

-- `getpid`, `read`, `fork` and `write`: three are counted, and two of them are good.
abbrev numbers : List ℕ
numbers = 11 ∷ 5 ∷ 1 ∷ 16 ∷ []

numbers_run : ((calls handlers numbers kernel).1.procs 0).syscalls ≡ 3
unfolding calls syscall
numbers_run = refl

calls-total_example : Totals handlers kernel (calls handlers numbers kernel)
calls-total_example =
    calls-total handlers numbers kernel handlers-AllKeep (omega arith, omega arith)

kernel-AreWords :
    (p : ℕ) → ((kernel.procs p).syscalls < 2 ^ 32) × ((kernel.procs p).syscallsgood < 2 ^ 32)
kernel-AreWords p = (ground arith, ground arith)

getnumsyscalls-FirstWith_example :
    (o : Option ℕ) × FirstWith (pos 7) kernel o
    × (false ≡ false
        → Answers (λ p. p.syscalls) kernel o (getnumsyscalls (pos 7) kernel)
          × Answers (λ p. p.syscallsgood) kernel o (getnumsyscallsgood (pos 7) kernel))
    × (false ≡ true
        → (getnumsyscalls (pos 7) kernel ≡ none) × (getnumsyscallsgood (pos 7) kernel ≡ none))
getnumsyscalls-FirstWith_example =
    getnumsyscalls-FirstWith (pos 7) kernel (λ p l. (kernel-AreWords p).0)
      (λ p l. (kernel-AreWords p).1)

slot_one : find_unused nproc kernel ≡ some 1
unfolding find_unused
slot_one = refl
