-- ===== src/Sched/Table/Slice.antt =====
-- `setslice` and `getslice`: their results on every branch, and what they change.
use cs537_spring.Prelude.{
  ℕ, zero, suc, ◌+◌, ◌≡◌, ◌<◌, ◌≤◌, refl, Bool, true, false, none, some, arith, ◌||◌, Bool-cases,
  inl, inr, ℤ, pos, negsuc, minus_one, lt_nat, eq_int, to_nat, update, ap, ◌∙◌, ◌⊎◌,
}
use cs537_spring.Sched.Proc.{Proc, Kernel, ok, panic, acquire_held, set_proc, nproc}
use cs537_spring.Sched.Table.{find, find_pid, setslice, getslice}

-- What a search that succeeds has found: the slot passes the test, lies in the range searched, and
-- no slot before it passes.
pub find-some :
    (test : Proc → Bool) (f : ℕ → Proc) (n i p : ℕ)
    → find test f n i ≡ some p
    → (test (f p) ≡ true) × (i ≤ p) × (p < i + n)
unfolding find
find-some test f zero i p h = absurd (cc)
find-some test f (suc n) i p h = elim (Bool-cases (test (f i))) [
  | inl e ↦ ground arith
  | inr e ↦ let r = find-some test f n (i + 1) p (ground arith) in ground arith
]

-- The search for a pid does not depend on the time slices.
pub find-congr :
    (test : Proc → Bool) (f g : ℕ → Proc) (n i : ℕ)
    → ((x : ℕ) → test (g x) ≡ test (f x))
    → find test g n i ≡ find test f n i
unfolding find
find-congr test f g zero i h = refl
find-congr test f g (suc n) i h = ground (arith, h i, find-congr test f g n (i + 1) h)

-- `acquire` and `release` undo each other.
relock : (k : Kernel) → k.locked ≡ false → record k { locked = false } ≡ k
relock k h = ground arith

-- An invalid slice, a negative pid and a pid that no process has are refused with -1, and nothing
-- changes.
pub setslice-error :
    (pid slice : ℤ) (k : Kernel)
    → k.locked ≡ false
    → ((lt_nat slice 1 || lt_nat pid 0) ≡ true) ⊎ (find_pid k pid ≡ none)
    → setslice pid slice k ≡ ok minus_one k
unfolding setslice
setslice-error pid slice k h (inl e) = rw e
setslice-error pid slice k h (inr e) = ground arith

-- What setting a slice changes: the `timeslice` of the first process with the pid. The lock is
-- free again.
pub setslice-ok :
    (pid slice : ℤ) (k : Kernel) (p : ℕ)
    → k.locked ≡ false
    → (lt_nat slice 1 || lt_nat pid 0) ≡ false
    → find_pid k pid ≡ some p
    → setslice pid slice k
      ≡ ok (pos 0) (set_proc k p (record (k.procs p) { timeslice = to_nat slice }))
unfolding setslice
setslice-ok pid slice k p h g e = ground arith

-- Reading the slice of a process with the pid.
pub getslice-ok :
    (pid : ℤ) (k : Kernel) (p : ℕ)
    → k.locked ≡ false
    → lt_nat pid 0 ≡ false
    → find_pid k pid ≡ some p
    → getslice pid k ≡ ok (pos (k.procs p).timeslice) k
unfolding getslice
getslice-ok pid k p h g e = ground arith

-- Where no process has the pid, `getslice` takes `ptable.lock` a second time instead of letting it
-- go: the kernel panics.
pub getslice-panic :
    (pid : ℤ) (k : Kernel)
    → k.locked ≡ false
    → lt_nat pid 0 ≡ false
    → find_pid k pid ≡ none
    → getslice pid k ≡ panic acquire_held
unfolding getslice
getslice-panic pid k h g e = ground arith

nonneg-to_nat : (i : ℤ) → lt_nat i 1 ≡ false → i ≡ pos (to_nat i)
nonneg-to_nat (pos n) h = refl
nonneg-to_nat (negsuc n) h = cc

guard_halves : (a b : Bool) → (a || b) ≡ false → (a ≡ false) × (b ≡ false)
guard_halves a b h = ground arith

-- Setting the slice of a process and reading it back gives the slice that was set: neither call
-- panics, and both report success.
pub setslice-getslice :
    (pid slice : ℤ) (k : Kernel) (p : ℕ)
    → k.locked ≡ false
    → (lt_nat slice 1 || lt_nat pid 0) ≡ false
    → find_pid k pid ≡ some p
    → (k' : Kernel) × (setslice pid slice k ≡ ok (pos 0) k') × (getslice pid k' ≡ ok slice k')
setslice-getslice pid slice k p h g e =
    let c : Proc = record (k.procs p) { timeslice = to_nat slice } in
    let k' : Kernel = set_proc k p c in
    let found : find_pid k' pid ≡ some p =
      find-congr (λ d. eq_int d.pid pid) k.procs (update k.procs p c) nproc 0
        (λ x. ap (λ n. eq_int n pid) (ground arith))
      ∙ e in
    let parts = guard_halves (lt_nat slice 1) (lt_nat pid 0) g in
    let read = getslice-ok pid k' p h parts.1 found in
    (
      k',
      setslice-ok pid slice k p h g e,
      read ∙ ap (λ i. ok i k') (ground (arith, nonneg-to_nat slice parts.0)),
    )
