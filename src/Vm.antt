-- ===== src/Vm.antt =====
-- p6/vm.c: encrypted pages and the clock queue of decrypted ones, over a machine state with the
-- page table of the current process and the physical memory.
pub mod Word
pub mod Machine
pub mod Crypt
pub mod Clock
pub mod Table
pub mod Space
pub mod Copy
pub mod Exec
mod Tests
