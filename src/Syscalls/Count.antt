-- ===== src/Syscalls/Count.antt =====
-- What `syscall` of p2/src/syscall.c has counted after any sequence of calls of a process.
use cs537_spring.Syscalls.Called.{
  call, with_call, calls, counts, total, good, AllKeep, Called, Small, call-Called, add_wrapped,
}
use cs537_spring.Prelude.{
  ℕ, ◌+◌, ◌%◌, ◌^◌, ◌≡◌, ◌<◌, refl, arith, sym, ◌∙◌, subst, Bool, not, ◌&&◌, List, [], ◌∷◌, ◌==◌,
  if◌then◌else◌,
}
use cs537_spring.Syscalls.{Kernel, Handlers, minus_word}

-- What the theorem below says of a run `r` from the state `k`.
abbrev pub Totals : Handlers → Kernel → List (ℕ × ℕ) × Kernel → Type 0
Totals handlers k r =
    (r.1.current ≡ k.current)
    × ((r.1.procs k.current).syscalls
        ≡ ((k.procs k.current).syscalls + total handlers r.0) % 2 ^ 32)
    × ((r.1.procs k.current).syscallsgood
        ≡ ((k.procs k.current).syscallsgood + good handlers r.0) % 2 ^ 32)

Totals-with_call :
    (handlers : Handlers) (num : ℕ) (k k₁ : Kernel) (r : List (ℕ × ℕ) × Kernel)
    → Called (counts handlers num) k k₁
    → Totals handlers k₁ r
    → Totals handlers k (with_call num (k₁.procs k₁.current).eax r)
unfolding total good
Totals-with_call handlers num k k₁ r c ih = (
  ih.0 ∙ c.current,
  add_wrapped _ (k₁.procs k.current).syscalls (k.procs k.current).syscalls
      (if counts handlers num then 1 else 0) (total handlers r.0)
      (subst (λ i. (r.1.procs i).syscalls ≡ ((k₁.procs i).syscalls + total handlers r.0) % 2 ^ 32)
        c.current ih.1)
      c.syscalls,
  add_wrapped _ (k₁.procs k.current).syscallsgood (k.procs k.current).syscallsgood
      (if counts handlers num && not ((k₁.procs k₁.current).eax == minus_word) then 1 else 0)
      (good handlers r.0)
      (subst
        (λ i. (r.1.procs i).syscallsgood ≡ ((k₁.procs i).syscallsgood + good handlers r.0) % 2 ^ 32)
        c.current ih.2)
      (subst
        (λ i.
          (k₁.procs k.current).syscallsgood
          ≡ ((k.procs k.current).syscallsgood
              + (if counts handlers num && not ((k₁.procs i).eax == minus_word) then 1 else 0))
            % 2 ^ 32)
        (sym c.current) c.syscallsgood),
)

Small-Called : (b : Bool) (k k₁ : Kernel) → Called b k k₁ → Small k₁
Small-Called b k k₁ c =
    subst (λ i. ((k₁.procs i).syscalls < 2 ^ 32) × ((k₁.procs i).syscallsgood < 2 ^ 32))
      (sym c.current) (omega (arith, c.syscalls), omega (arith, c.syscallsgood))

-- If each handler returns to the process that has called it and does not write its counters, then
-- after any sequence of calls of a process the two counters have grown, as 32-bit words, by the
-- number of its calls that have a handler and are none of `fork`, `exec`, `sbrk` and the queries, and
-- by the number of those among them that did not return -1.
pub calls-total :
    (handlers : Handlers) (nums : List ℕ) (k : Kernel)
    → AllKeep handlers
    → Small k
    → Totals handlers k (calls handlers nums k)
unfolding calls total good
calls-total handlers [] k keep (ls, lg) = (refl, omega (arith, ls), omega (arith, lg))
calls-total handlers (num ∷ nums) k keep small =
    let c = call-Called handlers num k keep small in
    Totals-with_call handlers num k (call handlers num k)
      (calls handlers nums (call handlers num k)) c
      (calls-total handlers nums (call handlers num k) keep
        (Small-Called (counts handlers num) k (call handlers num k) c))
