-- ===== src/Sched/Tests/Boot.antt =====
-- The start of the first process, and a `fork2` without memory.
use cs537_spring.Prelude.{◌≡◌, refl, true, false, none, arith, [], pos, minus_one}
use cs537_spring.Sched.Proc.{Kernel, Returns}
use cs537_spring.Sched.Table.{find}
use cs537_spring.Sched.Fork.{fork2}
use cs537_spring.Sched.Fork.Child.{IsTable}
use cs537_spring.Sched.Fork.Refuse.{Refused, fork2-Refused}
use cs537_spring.Sched.Wait.{userinit}
use cs537_spring.Sched.Wait.First.{Booted, userinit-Booted}
use cs537_spring.Sched.Tests.{blank, kernel}

-- An empty table.
abbrev boot : Kernel
boot = record kernel { procs = λ i. blank; head = none; tail = none; nextpid = 1 }

boot-IsTable : IsTable boot []
boot-IsTable = record {
  queue = record { head_first = refl; tail_last = refl; linked = tt; distinct = tt };
  used = tt;
  below = λ x. omega arith;
  locked = refl;
}

userinit-Booted_example : Returns (λ _ k'. Booted boot 0 k') (userinit true true boot)
unfolding find
userinit-Booted_example = userinit-Booted boot 0 boot-IsTable refl

fork2-Refused_example :
    Returns (λ r k'. (r ≡ minus_one) × Refused kernel k') (fork2 true false 0 (pos 2) kernel)
unfolding find
fork2-Refused_example = fork2-Refused true false 0 (pos 2) kernel refl refl
