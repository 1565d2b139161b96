-- ===== src/Sched/Run/Head.antt =====
-- How long a process waits for the processor.
use cs537_spring.Prelude.{
  ℕ, ◌+◌, ◌≡◌, ◌<◌, refl, true, false, some, List, ◌∷◌, ◌++◌, [], arith, ap, ◌∙◌, All,
  if◌then◌else◌,
}
use cs537_spring.Sched.Proc.{Proc, Kernel, ok, is_runnable, Returns, Returns-mono}
use cs537_spring.Sched.Queue.Chain.{IsQueue, NotIn, Distinct, Distinct-NotIn}
use cs537_spring.Sched.Run.{turn, turns, yield_cpu, has_ticks}
use cs537_spring.Sched.Run.Turn.{turn-run}
use cs537_spring.Sched.Run.Quantum.{ticked}
use cs537_spring.Sched.Run.Round.{IsFresh, cost, member, credited, RoundDone, turns-round}

out_of_front :
    (f : ℕ → Proc) (p : ℕ) (xs zs : List ℕ) → Distinct f (xs ++ p ∷ zs) → member p xs ≡ false
out_of_front f p xs zs d = outside f p xs (Distinct-NotIn f p xs zs d)
  where
    outside : (f : ℕ → Proc) (p : ℕ) (xs : List ℕ) → NotIn f p xs → member p xs ≡ false
    outside f p [] n = refl
    outside f p (x ∷ xs) n = ground (arith, outside f p xs n.1)

-- The turn at the head of the queue, for a process that is as it was in the state `k`.
head-turn :
    (k k' : Kernel) (xs zs : List ℕ) (p : ℕ)
    → IsFresh (k.procs p)
    → 0 < (k.procs p).timeslice
    → member p xs ≡ false
    → RoundDone k xs (p ∷ zs) k'
    → (turn yield_cpu k' ≡ ok true (ticked k' p))
      × (((ticked k' p).procs p).schedticks ≡ (k.procs p).schedticks + 1)
head-turn k k' xs zs p (ready, active, comp) pos out r = (
  turn-run yield_cpu k' p (zs ++ xs) r.queue (ap (λ c. is_runnable c.state) same ∙ ready)
      (ap has_ticks same ∙ ground arith),
  ground (arith, same),
)
  where
    same : k'.procs p ≡ record (k.procs p) { next = (k'.procs p).next }
    same =
        r.credit p
        ∙ ap
            (λ b. record (if b then credited (k.procs p) else k.procs p) {
              next = (k'.procs p).next;
            })
            out

-- If the process in slot `p` is in the queue behind the processes `xs`, all of them and `p` are ready
-- and fresh, and `p` has a positive slice, then after the ticks that the slices of `xs` and one turn
-- for each of them add up to, in which nothing blocks, `p` is at the head, and the next turn
-- gives it a tick.
pub turns-head :
    (k : Kernel) (xs zs : List ℕ) (p : ℕ)
    → IsQueue k (xs ++ p ∷ zs)
    → All (λ x. IsFresh (k.procs x)) xs
    → IsFresh (k.procs p)
    → 0 < (k.procs p).timeslice
    → Returns
        (λ _ k'.
          (k'.head ≡ some p)
          × (k'' : Kernel) × (turn yield_cpu k' ≡ ok true k'')
          × ((k''.procs p).schedticks ≡ (k.procs p).schedticks + 1))
        (turns yield_cpu (cost k.procs xs) k)
turns-head k xs zs p q f fp pos =
    Returns-mono (λ _ k'. RoundDone k xs (p ∷ zs) k') _ (turns yield_cpu (cost k.procs xs) k)
      (turns-round k xs (p ∷ zs) q f)
      λ _ k' r.
        let t = head-turn k k' xs zs p fp pos (out_of_front k.procs p xs zs q.distinct) r in
        (r.queue.head_first, ticked k' p, t.0, t.1)
