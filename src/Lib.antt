-- ===== src/Lib.antt =====
-- Verification library of the CS537 programs: models of the system call counters of p2, of the
-- shell of p3, of the scheduler of p4, of the encrypted virtual memory of p5 and p6, and of the
-- two utilities of p1, with the theorems that make them correct. The programs are separate: each
-- part below has its own state, but for p5, which is modelled over the page tables and the memory
-- of p6.
--
-- The parts and where they are modelled:
-- - Prelude: names of the libraries passed on, Boolean tests, lists with native indices, C
--   integers (ℤ, `pos` and `negsuc`), and arrays as functions with `update`.
-- - Sched, for p4/src/proc.c: the compensated round-robin scheduler. Sched/Proc has `struct
--   proc`, the globals as a record `Kernel` that is passed explicitly, and commands that return
--   or panic. Sched/Queue is `push` and `pop`; Queue/Chain says when the links of the process
--   table form a queue, Queue/Fifo that the operations implement a list. Sched/Table is
--   `setslice`, `getslice`, `kill`, `wakeup1` and `wakeup`, Sched/Fork is `allocproc`, `fork2`
--   and `fork`, and Sched/Run is the loop of `scheduler`, one turn (`turn`) or several (`turns`),
--   with `yield`; Sched/Sleep is `sleep` before and after its call of `sched`, and `getpinfo`;
--   Sched/Wait is `wait` and `exit` up to `sched`, its guards, and `userinit`: Wait/Reap says
--   what `wait` returns, Wait/Sleepers that `wakeup1` keeps sleeping processes outside the queue,
--   Wait/Pass and Wait/Exit what `exit` does, Wait/First what `userinit` does. Fork/Child and
--   Fork/Refuse are about `fork2` that succeeds and that fails. The scheduler takes what a
--   process does in `swtch` as an argument; the theorems on quanta and rounds instantiate it by
--   `yield_cpu`, a process that computes until the timer interrupts it. Run/Head says how long a
--   process waits.
-- - Vm, for p6/vm.c: page encryption and the clock algorithm. Vm/Word has the page table entries
--   of p6/mmu.h as 32-bit words and their flags; Vm/Machine the page directory, the physical
--   memory and the clock queue of the current process; Vm/Crypt `uva2ka` and `mencrypt`; Vm/Clock
--   `wsetinsert`, `wsetdelete`, `mdecrypt`, `clearwset` and `searchwset`. The invariant of the
--   working set is in Clock/Resident, what an insertion does in Clock/Insert, the loop of
--   `wsetinsert` in Clock/Sweep, the page fault in Clock/Fault, and `wsetdelete` in Clock/Delete,
--   `clearwset` and `searchwset` in Clock/Clear. Vm/Table is `getpgtable`. A read through a null
--   pointer is a result of its own, `fault`. Vm/Space is the address space itself, by page
--   numbers: `kalloc` and `kfree` of p6/kalloc.c, `walkpgdir` with allocation, `mappages`,
--   `allocuvm`, `deallocuvm` and `clearpteu`; Space/Dealloc, Space/Alloc and Space/Grow say what
--   they do to the mapping of every page. Space/Fork is `setupkvm`, `copyuvm` and `freevm`:
--   Fork/Pages is about `mappages` of a range, Fork/Mapping and Fork/Kernel about `kmap`,
--   Fork/Copied and Fork/Loop about the copied pages, Fork/Free about the ways to fail, and
--   Fork/Child puts them together. Vm/Copy is `copyout` and `dump_rawphymem`. Vm/Exec is the end
--   of `exec` of p6/exec.c up to the release of the old page table: `clearwset` and the
--   encryption of the image.
-- - Encrypt, for p5/src/vm.c, the version without a clock queue, over the same machine: `uva2ka`,
--   `decrypt` and `mencrypt`; Encrypt/Range and Encrypt/Restore are about encryption and its
--   undoing, Encrypt/Fault about `decrypt` at every kind of entry, Encrypt/Report is
--   `getpgtable`, and Encrypt/Copy is `copyout` and `dump_rawphymem`.
-- - Syscalls, for p2/src: the counters of system calls. It has `syscall` with the handlers as an
--   argument, the queries of the counters and `allocproc`; Syscalls/Called is about one call and
--   Syscalls/Count about several, Syscalls/Query what the queries return.
-- - Utility, for what p1/my-look.c and p1/my-rev.c share: the options, the choice of the input
--   and the loop over `fgets`, which is an argument with the documented reading of lines as its
--   laws. Utility/Lines says that the loop goes over the lines of the file where they fit.
-- - Rev, for p1/my-rev.c: `reverse_string` on a buffer, and in Rev/Main `main`; Rev/Lines is
--   about one line, Rev/Program about the whole program, and Rev/Twice about running it twice.
-- - Look, for p1/my-look.c: `main`, with `strncasecmp` as an argument.
-- - Shell, for p3/mysh.c in batch and interactive mode. Shell/Word has `strcmp` and the words
--   that `strtok` gives; Shell/Alias the doubly linked list of aliases in a store of nodes, with
--   `checkAlias`, `addNodePath` and the effects of `alias` and `unalias`. Alias/Chain says when
--   the nodes form a list, Alias/Split cuts a list at a node, Alias/Paths and Alias/Lookup are
--   about what a name stands for, Alias/Define and Alias/Remove are about the two commands.
--   Shell/Redirect is the redirection of a line, and Shell/Batch the loop over lines: its replies
--   say what is echoed, printed or executed. Shell/Interactive is `interactive_mode`: its own code
--   up to the command `alias`, and for the rest, which the source repeats, that of batch mode.
--   Fork, `execv` and the files are outside.
--
-- Each loop is recursion on a number: the slots that are left in a table of NPROC or CLOCKSIZE
-- entries, the bytes of a page, or the pages of a range. `wsetinsert` loops on fuel: nine turns,
-- one for each slot and one more, are enough, since a turn that does not end the loop clears a
-- reference bit that was set. `reverse_string` loops on fuel as well: one round for each byte.
-- The loop over `fgets` has a round for each byte of the file, since a line has one at least. The
-- searches of the alias list have one round for each node that was ever allocated. `turns` is a
-- bound on the turns of a loop that does not end by itself; the theorems say for how many turns
-- they hold. `copyout` has a round for each byte, which is enough since a round copies one at
-- least, `deallocuvm`, `allocuvm` and `copyuvm` a round for each page, and `wsetdelete` eight
-- rounds, one for each slot; the theorems show that the fuel is not used up.
--
-- Not modelled: the concurrency of several CPUs (a command runs with the lock held or alone), the
-- hardware's writes of the reference bit during an operation, saved registers, files and devices.
-- In p2 and p4 it is an argument whether memory can be allocated; in p6 the free list is part of
-- the state. Addresses of Vm/Space are numbers of pages below KERNBASE, so that none wraps
-- around; the other modules on memory keep 32-bit arithmetic. The file system, the drivers, the
-- user library and the tests are those of xv6.
pub mod Prelude
pub mod Sched
pub mod Vm
pub mod Rev
pub mod Shell
pub mod Encrypt
pub mod Syscalls
pub mod Utility
pub mod Look
