-- ===== src/Sched/Wait/Reap.antt =====
-- What `wait` of p4/src/proc.c returns, and when it sleeps.
use cs537_spring.Prelude.{
  ◌&&◌, ℕ, ◌≡◌, ◌<◌, Bool, true, false, not, ◌||◌, Option, none, some, List, update, ℤ, pos,
  minus_one, if◌then◌else◌,
}
use cs537_spring.Sched.Proc.{is_zombie, unused, Proc, on, nproc, Kernel, set_proc}
use cs537_spring.Sched.Queue.Chain.{IsQueue, NotIn}
use cs537_spring.Sched.Sleep.{asleep}
use cs537_spring.Sched.Wait.{is_child}

-- The first slot of the table that passes a test, where there is one.
abbrev pub FirstSlot : (Proc → Bool) → (ℕ → Proc) → Option ℕ → Type 0
FirstSlot test f none = (j : ℕ) → j < nproc → test (f j) ≡ false
FirstSlot test f (some p) =
    (p < nproc) × (test (f p) ≡ true) × ((j : ℕ) → j < p → test (f j) ≡ false)

-- A child that has exited.
abbrev pub exited_child : ℕ → Proc → Bool
exited_child cur c = is_child cur c && is_zombie c.state

-- What `wait` ends in, by the first exited child and by whether there is a child: the result, or
-- the sleep of the process.
abbrev pub WaitEnd : ℕ → Kernel → List ℕ → Option ℕ → Bool → Option ℤ → Kernel → Type 0
WaitEnd cur k xs (some p) b r k' =
    (r ≡ some (pos (k.procs p).pid))
    × (k'
        ≡ set_proc k p
            (record (k.procs p) { state = unused; pid = 0; parent = none; killed = false }))
WaitEnd cur k xs none b r k' =
    if not b || (k.procs cur).killed
    then (r ≡ some minus_one) × (k' ≡ k)
    else (r ≡ none)
      × IsQueue k' xs
      × NotIn k'.procs cur xs
      × (k'.procs ≡ update k.procs cur (asleep (on cur) (k.procs cur)))
      × (k'.locked ≡ true)

-- The state with the lock taken.
abbrev held : Kernel → Kernel
held k = record k { locked = true }
