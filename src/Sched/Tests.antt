-- ===== src/Sched/Tests.antt =====
-- A small process table, runs of the operations on it, and the theorems at it.
mod Boot
use cs537_spring.Prelude.{
  sym, subst, ◌∙◌, ◌≢◌, update, ℕ, ◌≡◌, refl, true, false, some, none, arith, List, [], ◌∷◌, ◌++◌,
  pos, if◌then◌else◌, ◌==◌,
}
use cs537_spring.Sched.Proc.{
  is_sleeping, init_exiting, zombie, Proc, Kernel, Returns, ok, panic, unused, runnable, sleeping,
  on_ticks, nowhere, nproc, set_proc,
}
use cs537_spring.Sched.Queue.{push, pop}
use cs537_spring.Sched.Queue.Chain.{IsQueue, SameBut, NotIn, Distinct}
use cs537_spring.Sched.Queue.Fifo.{push-IsQueue, pop-IsQueue}
use cs537_spring.Sched.Table.{find, setslice, getslice, kill, wakeup1}
use cs537_spring.Sched.Table.Slice.{setslice-getslice}
use cs537_spring.Sched.Table.Kill.{kill-NotIn}
use cs537_spring.Sched.Table.Wakeup.{woken, Woke}
use cs537_spring.Sched.Table.Wakeup.Loop.{wakeup1-Woke}
use cs537_spring.Sched.Fork.{fork2}
use cs537_spring.Sched.Fork.Child.{IsTable, Forked, fork2-Forked}
use cs537_spring.Sched.Run.{turns, turn, turn_at, expire, yield_cpu}
use cs537_spring.Sched.Run.Turn.{turn-rotate, Rotated}
use cs537_spring.Sched.Run.Quantum.{turns-quantum, Served}
use cs537_spring.Sched.Run.Round.{turns-round, RoundDone}
use cs537_spring.Sched.Wait.{exit_before}
use cs537_spring.Sched.Wait.Sleepers.{Sleepers}
use cs537_spring.Sched.Wait.Exit.{Exited, exit_before-Exited}
use cs537_spring.Sched.Run.Head.{turns-head}
use cs537_spring.Sched.Sleep.{sleep_before, asleep, sleep_before-IsQueue}

abbrev blank : Proc
blank = record {
  state = unused;
  pid = 0;
  parent = none;
  chan = nowhere;
  killed = false;
  next = none;
  timeslice = 0;
  compticks = 0;
  schedticks = 0;
  sleepticks = 0;
  switches = 0;
  sleepdeadline = 0;
  activeticks = 0;
  activesleepticks = 0;
}

-- Slots 0 and 1 are in the queue with slices 2 and 1; slot 2 sleeps until tick 5; slot 3 is free.
abbrev procs : ℕ → Proc
procs i =
    if i == 0
    then record blank { state = runnable; pid = 1; timeslice = 2; next = some 1 }
    else if i == 1
    then record blank { state = runnable; pid = 2; timeslice = 1 }
    else if i == 2
    then record blank {
      state = sleeping;
      chan = on_ticks;
      pid = 3;
      timeslice = 1;
      sleepdeadline = 5;
    }
    else blank

abbrev kernel : Kernel
kernel = record {
  procs = procs;
  head = some 0;
  tail = some 1;
  nextpid = 4;
  initproc = 0;
  locked = false;
  ticks = 5;
}

abbrev queue : List ℕ
queue = 0 ∷ 1 ∷ []

kernel-IsQueue : IsQueue kernel queue
kernel-IsQueue = record {
  head_first = refl;
  tail_last = refl;
  linked = (refl, refl);
  distinct = (((λ e. omega arith), tt), (tt, tt));
}

kernel-NotIn : NotIn kernel.procs 2 queue
kernel-NotIn = ((λ e. omega arith), ((λ e. omega arith), tt))

kernel-IsTable : IsTable kernel queue
kernel-IsTable = record {
  queue = kernel-IsQueue;
  used = (refl, (refl, tt));
  below = λ x. ground arith;
  locked = refl;
}

push-IsQueue_example :
    Returns (λ _ k'. IsQueue k' (0 ∷ 1 ∷ 2 ∷ []) × SameBut kernel k') (push (some 2) kernel)
push-IsQueue_example = push-IsQueue kernel 2 queue kernel-IsQueue kernel-NotIn

pop-IsQueue_example :
    Returns
      (λ _ k'. IsQueue k' (1 ∷ []) × (k'.procs ≡ kernel.procs) × SameBut kernel k')
      (pop kernel)
pop-IsQueue_example = pop-IsQueue kernel 0 (1 ∷ []) kernel-IsQueue

kill-NotIn_example :
    Returns
      (λ r k'. ((k'.procs 2).state ≡ runnable) × IsQueue k' queue × NotIn k'.procs 2 queue)
      (kill (pos 3) kernel)
unfolding find
kill-NotIn_example = kill-NotIn (pos 3) kernel 2 queue refl refl refl kernel-IsQueue kernel-NotIn

-- The clock has reached the deadline of the process in slot 2.
woken_slots : woken on_ticks 5 procs nproc 0 ≡ 2 ∷ []
unfolding woken
woken_slots = refl

kernel-Distinct : Distinct kernel.procs (queue ++ woken on_ticks 5 procs nproc 0)
kernel-Distinct =
    rw woken_slots
      (((λ e. omega arith), ((λ e. omega arith), tt)), (((λ e. omega arith), tt), (tt, tt)))

wakeup1-Woke_example :
    Returns (λ _ k'. Woke on_ticks kernel nproc 0 queue k') (wakeup1 on_ticks kernel)
wakeup1-Woke_example = wakeup1-Woke on_ticks kernel queue kernel-IsQueue kernel-Distinct

fork2-Forked_example :
    Returns (λ r k'. Forked kernel 0 3 (pos 4) queue r k') (fork2 true true 0 (pos 4) kernel)
unfolding find
fork2-Forked_example = fork2-Forked kernel 0 3 (pos 4) queue kernel-IsTable refl refl

-- The first process has used its slice.
abbrev spent : Kernel
spent = set_proc kernel 0 (record (kernel.procs 0) { activeticks = 2 })

spent-IsQueue : IsQueue spent queue
spent-IsQueue = record {
  head_first = refl;
  tail_last = refl;
  linked = (refl, refl);
  distinct = (((λ e. omega arith), tt), (tt, tt));
}

turns-quantum_example : Returns (λ _ k'. Served kernel 0 (1 ∷ []) 2 k') (turns yield_cpu 3 kernel)
turns-quantum_example = turns-quantum kernel 0 (1 ∷ []) 2 kernel-IsQueue refl refl

turns-round_example : Returns (λ _ k'. RoundDone kernel queue [] k') (turns yield_cpu 5 kernel)
turns-round_example =
    turns-round kernel queue [] kernel-IsQueue ((refl, refl, refl), ((refl, refl, refl), tt))

-- The round, run: the queue is as before, and the two slices are accounted.
turns-round_run :
    Returns
      (λ _ k'.
        (k'.head ≡ some 0)
        × (k'.tail ≡ some 1)
        × ((k'.procs 0).schedticks ≡ 2)
        × ((k'.procs 1).schedticks ≡ 1))
      (turns yield_cpu 5 kernel)
unfolding turns turn turn_at expire push pop
turns-round_run = (refl, refl, refl, refl)

sleep_before-IsQueue_example :
    Returns
      (λ _ k'.
        IsQueue k' (1 ∷ [])
        × NotIn k'.procs 0 (1 ∷ [])
        × (k'.procs ≡ update kernel.procs 0 (asleep on_ticks (kernel.procs 0)))
        × (k'.locked ≡ true))
      (sleep_before false on_ticks 0 kernel)
sleep_before-IsQueue_example =
    sleep_before-IsQueue false on_ticks kernel 0 (1 ∷ []) refl kernel-IsQueue

-- Slot 2 is an exited child of slot 0.
abbrev family : Kernel
family = record kernel {
  procs =
      λ i. if i == 2 then record blank { state = zombie; pid = 3; parent = some 0 } else procs i;
}

turns-head_example :
    Returns
      (λ _ k'.
        (k'.head ≡ some 1)
        × (k'' : Kernel) × (turn yield_cpu k' ≡ ok true k'')
        × ((k''.procs 1).schedticks ≡ 1))
      (turns yield_cpu 3 kernel)
turns-head_example =
    turns-head kernel (0 ∷ []) [] 1 kernel-IsQueue ((refl, refl, refl), tt) (refl, refl, refl)
      (omega arith)

-- Slot 2 sleeps, and is a child of slot 1.
abbrev home : Kernel
home = record kernel {
  procs = λ i.
      if i == 2
      then record blank { state = sleeping; chan = on_ticks; pid = 3; parent = some 1 }
      else procs i;
}

only_two : (y : ℕ) → is_sleeping (home.procs y).state ≡ true → y ≡ 2
only_two y a = ground arith

home-Sleepers : Sleepers home queue
home-Sleepers = record {
  queue = record {
    head_first = refl;
    tail_last = refl;
    linked = (refl, refl);
    distinct = (((λ e. omega arith), tt), (tt, tt));
  };
  outside = λ y a.
      subst (λ x. NotIn home.procs x queue) (sym (only_two y a))
        ((λ e. omega arith), ((λ e. omega arith), tt));
  apart = λ i j ne a b e. ne (only_two i a ∙ sym (only_two j b));
}

exit_before-Exited_example :
    (◌≡◌ {A = ℕ} 1 0 → exit_before 1 home ≡ panic init_exiting)
    × (◌≢◌ {A = ℕ} 1 0 → Returns (λ _ k'. Exited 1 home k') (exit_before 1 home))
exit_before-Exited_example = exit_before-Exited 1 home queue refl home-Sleepers
