-- ===== src/Sched/Wait/Exit.antt =====
-- `exit` of p4/src/proc.c: what it has done when it gives up the processor.
use cs537_spring.Prelude.{
  ℕ, ◌≡◌, ◌≢◌, ◌<◌, refl, arith, ap, sym, ◌∙◌, subst, Bool, true, false, ◌&&◌, Option, none, some,
  List, ◌++◌, ◌==◌, if◌then◌else◌, Bool-cases, inl, inr, update_self,
}
use cs537_spring.Sched.Proc.{
  init_exiting, Proc, zombie, nproc, Kernel, Result, ok, panic, acquire_held, Returns, Returns-bind,
  Returns-mono, set_proc, is_sleeping, acquire, and_then,
}
use cs537_spring.Sched.Queue.Chain.{IsQueue-congr}
use cs537_spring.Sched.Table.{sleeps_on, wakeup1}
use cs537_spring.Sched.Table.Wakeup.{is_due, woken, in_range, Woke}
use cs537_spring.Sched.Wait.{is_slot, is_child, parent_chan, pass_from, exit_locked, exit_before}
use cs537_spring.Sched.Wait.Sleepers.{Sleepers, Slot, Woke-Slot, wakeup1-Sleepers}
use cs537_spring.Sched.Wait.Pass.{Sleepers-set, Passed, pass_from-Passed}

-- What `exit` has done when it calls `sched`.
pub record Exited (cur : ℕ) (k k' : Kernel) : Type 0 where
  pub state : (k'.procs cur).state ≡ zombie
  pub locked : k'.locked ≡ true
  pub queue : (xs : List ℕ) × Sleepers k' xs
  pub orphans :
      (y : ℕ)
      → y < nproc
      → (k'.procs y).parent
        ≡ (if is_child cur (k.procs y) then some k.initproc else (k.procs y).parent)
  pub parent_woken :
      (y : ℕ)
      → y < nproc
      → y ≢ cur
      → sleeps_on (parent_chan (k.procs cur).parent) (k.procs y) ≡ true
      → is_sleeping (k'.procs y).state ≡ false

due_if_asleep :
    (o : Option ℕ) (now : ℕ) (c : Proc)
    → sleeps_on (parent_chan o) c ≡ true
    → is_due (parent_chan o) now c ≡ true
due_if_asleep none now c h = ground (arith, h)
due_if_asleep (some p) now c h = ground (arith, h)

module _ (cur : ℕ) (k k₁ k₂ : Kernel) (xs : List ℕ) (held : k.locked ≡ true)
    (w : Woke (parent_chan (k.procs cur).parent) k nproc 0 xs k₁)
    (b : Passed cur (in_range 0 nproc) k₁ k₂) where
  exited-Slot :
      (y : ℕ)
      → Slot
          (parent_chan (k.procs cur).parent)
          k.ticks
          (in_range 0 nproc y)
          (k.procs y)
          (k₁.procs y)
  exited-Slot y =
      Woke-Slot (parent_chan (k.procs cur).parent) k.ticks (in_range 0 nproc y) (k.procs y)
        (k₁.procs y) (w.slots y)

  abbrev dead : Kernel
  dead = set_proc k₂ cur (record (k₂.procs cur) { state = zombie })

  dead-parent : (y : ℕ) → (dead.procs y).parent ≡ (k₂.procs y).parent
  dead-parent y = ground arith

  dead-other : (y : ℕ) → y ≢ cur → is_sleeping (dead.procs y).state ≡ is_sleeping (k₂.procs y).state
  dead-other y ne = ground arith

  awake_after :
      (y : ℕ)
      → y < nproc
      → sleeps_on (parent_chan (k.procs cur).parent) (k.procs y) ≡ true
      → is_sleeping (k₂.procs y).state ≡ false
  awake_after y l h = elim (Bool-cases (is_sleeping (k₂.procs y).state)) [
    | inr calm ↦ calm
    | inl a ↦ absurd (
        due_not (due_if_asleep (k.procs cur).parent k.ticks (k.procs y) h)
          ((exited-Slot y).passed (b.asleep y a) (ground arith)))
  ]
    where
      due_not : {b : Bool} → b ≡ true → b ≡ false → ⊥
      due_not x y = cc

  dead-Exited : Exited cur k dead
  dead-Exited = record {
    state = ap (λ c. c.state) (update_self k₂.procs cur (record (k₂.procs cur) { state = zombie }));
    locked = b.locked ∙ w.locked ∙ held;
    queue = (
      b.sleepers.0,
      Sleepers-set k₂ cur (record (k₂.procs cur) { state = zombie }) b.sleepers.0 refl refl
          (λ h. cc) b.sleepers.1,
    );
    orphans = λ y l.
        dead-parent y
        ∙ b.parents y
        ∙ ap (λ t. if t && is_child cur (k₁.procs y) then some k₁.initproc else (k₁.procs y).parent)
            (inside y l)
        ∙ ap (λ n. if is_child cur (k₁.procs y) then some n else (k₁.procs y).parent) w.initproc
        ∙ ap (λ o. if is_slot cur o then some k.initproc else o) (exited-Slot y).parent;
    parent_woken = λ y l ne h. dead-other y ne ∙ awake_after y l h;
  }
    where
      inside : (y : ℕ) → y < nproc → in_range 0 nproc y ≡ true
      inside y l = ground arith

exit_locked-Exited :
    (cur : ℕ) (k : Kernel) (xs : List ℕ)
    → k.locked ≡ true
    → cur ≢ k.initproc
    → Sleepers k xs
    → Returns (λ _ k'. Exited cur k k') (exit_locked cur (parent_chan (k.procs cur).parent) k)
unfolding exit_locked
exit_locked-Exited cur k xs e ne s =
    Returns-bind
      (λ _ k₁.
        Sleepers k₁ (xs ++ woken (parent_chan (k.procs cur).parent) k.ticks k.procs nproc 0)
        × Woke (parent_chan (k.procs cur).parent) k nproc 0 xs k₁)
      _ (wakeup1 (parent_chan (k.procs cur).parent) k) _
      (wakeup1-Sleepers (parent_chan (k.procs cur).parent) k xs s)
      λ _ k₁ w.
        Returns-bind (λ _ k₂. Passed cur (in_range 0 nproc) k₁ k₂) _ (pass_from cur nproc 0 k₁) _
          (pass_from-Passed cur nproc 0 k₁
            (xs ++ woken (parent_chan (k.procs cur).parent) k.ticks k.procs nproc 0)
            (λ x. ne (x ∙ w.1.initproc)) w.0)
          λ _ k₂ b. dead-Exited cur k k₁ k₂ xs e w.1 b

-- The state with the lock taken.
abbrev with_lock : Kernel → Kernel
with_lock k = record k { locked = true }

Sleepers-with_lock : (k : Kernel) (xs : List ℕ) → Sleepers k xs → Sleepers (with_lock k) xs
Sleepers-with_lock k xs s = record {
  queue = IsQueue-congr k (with_lock k) xs refl refl refl s.queue;
  outside = s.outside;
  apart = s.apart;
}

Exited-with_lock : (cur : ℕ) (k k' : Kernel) → Exited cur (with_lock k) k' → Exited cur k k'
Exited-with_lock cur k k' x = record {
  state = x.state;
  locked = x.locked;
  queue = x.queue;
  orphans = x.orphans;
  parent_woken = x.parent_woken;
}

-- The first process exits by a panic. Any other process, where the lock is free, no sleeping process is in the queue and no two sleeping processes have one pid,
-- becomes a zombie with the lock held. Its children belong to the first process, all other
-- processes keep their parent, no process sleeps on its parent's address any more, and the
-- sleeping processes are still outside the queue.
pub exit_before-Exited :
    (cur : ℕ) (k : Kernel) (xs : List ℕ)
    → k.locked ≡ false
    → Sleepers k xs
    → (cur ≡ k.initproc → exit_before cur k ≡ panic init_exiting)
      × (cur ≢ k.initproc → Returns (λ _ k'. Exited cur k k') (exit_before cur k))
unfolding exit_before acquire
exit_before-Exited cur k xs e s = (
  λ x. ap (λ b. if b then panic init_exiting else rest) (same x),
  λ ne.
      subst (Returns λ _ k'. Exited cur k k')
        (sym (
          ap (λ b. if b then panic init_exiting else rest) (different ne)
          ∙ ap (λ b. and_then (if b then panic acquire_held else ok tt (with_lock k)) next) e))
        (Returns-mono _ _ (exit_locked cur (parent_chan (k.procs cur).parent) (with_lock k))
          (exit_locked-Exited cur (with_lock k) xs refl ne (Sleepers-with_lock k xs s))
          λ _ k' x. Exited-with_lock cur k k' x),
)
  where
    next : Unit {0} → Kernel → Result (Unit {0})
    next _ = exit_locked cur (parent_chan (k.procs cur).parent)

    rest : Result (Unit {0})
    rest = and_then (acquire k) next

    same : cur ≡ k.initproc → (cur == k.initproc) ≡ true
    same x = ground arith

    different : cur ≢ k.initproc → (cur == k.initproc) ≡ false
    different ne = ground arith
