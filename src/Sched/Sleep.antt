-- ===== src/Sched/Sleep.antt =====
-- `sleep` of p4/src/proc.c, from its two tests for null arguments up to the call of `sched`, and
-- after it. `own` says that the lock that
-- the caller holds is `ptable.lock` itself; another lock is not part of the state, and its release
-- and reacquisition change nothing here. And `getpinfo`, which reports the whole process table.
use cs537_spring.Prelude.{
  ℕ, zero, suc, ◌+◌, ◌<◌, ◌≡◌, refl, sym, ap, ◌∙◌, subst, arith, Bool, true, false, not, some, List,
  [], ◌∷◌, get_elem?, update, ℤ, pos, minus_one, if◌then◌else◌,
}
use cs537_spring.Sched.Proc.{
  Proc, Chan, nowhere, sleeping, is_unused, nproc, Kernel, ok, Command, done, pure, ◌>>=◌, ◌>>◌,
  acquire, release, get, set_proc, Returns, Returns-mono,
}
use cs537_spring.Sched.Queue.{pop}
use cs537_spring.Sched.Queue.Chain.{IsQueue, NotIn, set_proc-IsQueue}
use cs537_spring.Sched.Queue.Fifo.{pop-IsQueue}
use cs537_spring.Sched.Table.{modify}

-- The process `p` goes to sleep on a channel.
pub sleep_before : Bool → Chan → ℕ → Command (Unit {0})
sleep_before own chan p = do
  if own then done else acquire
  modify p (λ c. record c { chan = chan; state = sleeping })
  pop

-- The process `p` has been woken and scheduled.
pub sleep_after : Bool → ℕ → Command (Unit {0})
sleep_after own p = do modify p (λ c. record c { chan = nowhere }); if own then done else release

-- What `getpinfo` reports of a process.
pub record Info : Type 0 where
  pub inuse : Bool
  pub pid : ℕ
  pub timeslice : ℕ
  pub compticks : ℕ
  pub schedticks : ℕ
  pub sleepticks : ℕ
  pub switches : ℕ

abbrev pub info : Proc → Info
info c = record {
  inuse = not (is_unused c.state);
  pid = c.pid;
  timeslice = c.timeslice;
  compticks = c.compticks;
  schedticks = c.schedticks;
  sleepticks = c.sleepticks;
  switches = c.switches;
}

-- The loop over the table, `n` slots from slot `i` on.
pub info_from : ℕ → ℕ → (ℕ → Proc) → List Info
info_from zero i f = []
info_from (suc n) i f = info (f i) ∷ info_from n (i + 1) f

-- `getpinfo`; `null` says that its argument is the null pointer. The arrays of `struct pstat` are
-- the columns of the list.
pub getpinfo : Bool → Command (ℤ × List Info)
unfolding info_from
getpinfo null =
    if null
    then pure (minus_one, [])
    else do acquire; k ← get; release; pure (pos 0, info_from nproc 0 k.procs)

-- The process as `sleep` leaves it.
abbrev pub asleep : Chan → Proc → Proc
asleep chan c = record c { chan = chan; state = sleeping }

-- The writes of `sleep`, with the lock held.
pop-asleep :
    (chan : Chan) (k : Kernel) (x : ℕ) (xs : List ℕ)
    → k.locked ≡ true
    → IsQueue k (x ∷ xs)
    → Returns
        (λ _ k'.
          IsQueue k' xs
          × NotIn k'.procs x xs
          × (k'.procs ≡ update k.procs x (asleep chan (k.procs x)))
          × (k'.locked ≡ true))
        (pop (set_proc k x (asleep chan (k.procs x))))
pop-asleep chan k x xs h q =
    let q₁ = set_proc-IsQueue k x (asleep chan (k.procs x)) (x ∷ xs) refl refl q in
    Returns-mono _ _ (pop (set_proc k x (asleep chan (k.procs x))))
      (pop-IsQueue (set_proc k x (asleep chan (k.procs x))) x xs q₁)
      λ _ k' (q', same, but).
        (q', subst (λ f. NotIn f x xs) (sym same) q₁.distinct.0, same, but.locked ∙ h)

-- `sleep` of the process at the head of the queue, with the table's lock held if it is the lock
-- given and free if it is not, does not panic. The process leaves the queue, the others stay in
-- their order, the lock is held, and of all processes only this one changes: in its channel and
-- its state.
pub sleep_before-IsQueue :
    (own : Bool) (chan : Chan) (k : Kernel) (x : ℕ) (xs : List ℕ)
    → k.locked ≡ own
    → IsQueue k (x ∷ xs)
    → Returns
        (λ _ k'.
          IsQueue k' xs
          × NotIn k'.procs x xs
          × (k'.procs ≡ update k.procs x (asleep chan (k.procs x)))
          × (k'.locked ≡ true))
        (sleep_before own chan x k)
unfolding sleep_before acquire
sleep_before-IsQueue true chan k x xs h q = pop-asleep chan k x xs h q
sleep_before-IsQueue false chan k x xs h q = rw h (
    pop-asleep chan (record k { locked = true }) x xs refl
      (record {
        head_first = q.head_first;
        tail_last = q.tail_last;
        linked = q.linked;
        distinct = q.distinct;
      }))

get_elem?-info_from :
    (n i j : ℕ) (f : ℕ → Proc) → j < n → get_elem? (info_from n i f) j ≡ some (info (f (i + j)))
unfolding info_from
get_elem?-info_from zero i j f l = absurd (omega arith)
get_elem?-info_from (suc n) i zero f l =
    ap (λ s. some (info (f s))) {x = i} {y = i + 0} (omega arith)
get_elem?-info_from (suc n) i (suc j) f l =
    get_elem?-info_from n (i + 1) j f (omega arith)
    ∙ ap (λ s. some (info (f s))) {x = i + 1 + j} {y = i + suc j} (omega arith)

-- With the lock free, `getpinfo` returns 0 and leaves the kernel as it is, and its report has for
-- each slot of the table the process of that slot. With a null pointer it returns -1.
pub getpinfo-info :
    (k : Kernel)
    → k.locked ≡ false
    → ((rows : List Info) × (getpinfo false k ≡ ok (pos 0, rows) k)
        × ((j : ℕ) → j < nproc → get_elem? rows j ≡ some (info (k.procs j))))
      × (getpinfo true k ≡ ok (minus_one, []) k)
unfolding getpinfo acquire release
getpinfo-info k h = (
  (
    info_from nproc 0 k.procs,
    ground arith,
    λ j l.
        get_elem?-info_from nproc 0 j k.procs l
        ∙ ap (λ s. some (info (k.procs s))) {x = 0 + j} {y = j} (omega arith),
  ),
  refl,
)
