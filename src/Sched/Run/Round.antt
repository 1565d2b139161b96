-- ===== src/Sched/Run/Round.antt =====
-- A whole round of the queue.
use cs537_spring.Prelude.{
  ℕ, suc, ◌+◌, ◌≡◌, ◌≢◌, refl, true, false, Bool, ◌||◌, List, ◌∷◌, ◌++◌, [], arith, subst, sym, ap,
  All, ◌==◌, ◌∙◌, if◌then◌else◌,
}
use native.Mathlib.Decide.{ℕ_discrete}
use mathlib.Core.List.{append_assoc, append-nil}
use cs537_spring.Sched.Proc.{Proc, Kernel, is_runnable, Returns, Returns-mono}
use cs537_spring.Sched.Queue.Chain.{IsQueue, NotIn}
use cs537_spring.Sched.Run.{turns, yield_cpu}
use cs537_spring.Sched.Run.Quantum.{Served, quantum_then}

-- A process that is ready, has not run since it came to the queue, and has no compensation.
abbrev pub IsFresh : Proc → Type 0
IsFresh c = (is_runnable c.state ≡ true) × (c.activeticks ≡ 0) × (c.activesleepticks ≡ 0)

-- The turns that a round takes: for each process its ticks and one turn to go behind the others.
abbrev pub cost : (ℕ → Proc) → List ℕ → ℕ
cost f [] = 0
cost f (x ∷ xs) = suc ((f x).timeslice + cost f xs)

abbrev pub member : ℕ → List ℕ → Bool
member y [] = false
member y (x ∷ xs) = (y == x) || member y xs

-- What a process owes to the round: its time slice is added to the ticks that it has run, and one
-- switch is counted. No compensation is used.
abbrev pub credited : Proc → Proc
credited c = record c { schedticks = c.schedticks + c.timeslice; switches = c.switches + 1 }

pub record RoundDone (k : Kernel) (xs ys : List ℕ) (k' : Kernel) : Type 0 where
  pub queue : IsQueue k' (ys ++ xs)
  pub credit :
      (y : ℕ)
      → k'.procs y ≡ record (if member y xs then credited (k.procs y) else k.procs y) {
        next = (k'.procs y).next;
      }
  pub locked : k'.locked ≡ k.locked

not-member : (f : ℕ → Proc) (x : ℕ) (xs ys : List ℕ) → NotIn f x (xs ++ ys) → member x xs ≡ false
not-member f x [] ys n = refl
not-member f x (y ∷ xs) ys n = ground (arith, not-member f x xs ys n.1)

-- The processes of the rest keep what the round reads of them.
IsFresh-others :
    (k k' : Kernel) (x : ℕ) (d : ℕ) (xs ys zs : List ℕ)
    → Served k x ys d k'
    → NotIn k.procs x (xs ++ zs)
    → All (λ y. IsFresh (k.procs y)) xs
    → All (λ y. IsFresh (k'.procs y)) xs × (cost k'.procs xs ≡ cost k.procs xs)
IsFresh-others k k' x d [] ys zs s n h = (tt, refl)
IsFresh-others k k' x d (y ∷ xs) ys zs s n h =
    let rest = IsFresh-others k k' x d xs ys zs s n.1 h.1 in
    let ne : y ≢ x = λ e. n.0 (ap (λ v. (k.procs v).pid) e) in
    let same = s.others y ne in (((ground arith, ground arith, ground arith), rest.0), ground arith)

RoundDone-cons :
    (k k₁ k' : Kernel) (x d : ℕ) (xs ys : List ℕ)
    → IsFresh (k.procs x)
    → d ≡ (k.procs x).timeslice
    → member x xs ≡ false
    → Served k x (xs ++ ys) d k₁
    → RoundDone k₁ xs (ys ++ x ∷ []) k'
    → RoundDone k (x ∷ xs) ys k'
RoundDone-cons k k₁ k' x d xs ys f e out s r = record {
  queue = subst (IsQueue k') (append_assoc ys (x ∷ []) xs) r.queue;
  credit = λ y. elim (ℕ_discrete y x) [
    | yes same ↦ rw same (ground (arith, s.self, r.credit x))
    | no other ↦ ground (arith, s.others y other, r.credit y)
  ];
  locked = r.locked ∙ s.locked;
}

-- If every process of the queue's front part `xs` is ready and fresh, then after one round, in
-- which nothing blocks, these processes stand behind the others in the order that they had, each
-- has run for exactly its time slice, and no process outside `xs` has run.
pub turns-round :
    (k : Kernel) (xs ys : List ℕ)
    → IsQueue k (xs ++ ys)
    → All (λ x. IsFresh (k.procs x)) xs
    → Returns (λ _ k'. RoundDone k xs ys k') (turns yield_cpu (cost k.procs xs) k)
unfolding turns
turns-round k [] ys q f = record {
  queue = subst (IsQueue k) (sym (append-nil ys)) q;
  credit = λ y. refl;
  locked = refl;
}
turns-round k (x ∷ xs) ys q f =
    quantum_then (λ _ k'. RoundDone k (x ∷ xs) ys k') (k.procs x).timeslice (cost k.procs xs)
      ((k.procs x).timeslice + cost k.procs xs) k x (xs ++ ys) refl q f.0.0 (ground arith)
      λ k₁ s.
        let others =
          IsFresh-others k k₁ x (k.procs x).timeslice xs (xs ++ ys) ys s q.distinct.0 f.1 in
        subst (λ n. Returns (λ _ k'. RoundDone k (x ∷ xs) ys k') (turns yield_cpu n k₁)) others.1
          (Returns-mono (λ _ k'. RoundDone k₁ xs (ys ++ x ∷ []) k') _
            (turns yield_cpu (cost k₁.procs xs) k₁)
            (turns-round k₁ xs (ys ++ x ∷ [])
              (subst (IsQueue k₁) (append_assoc xs ys (x ∷ [])) s.queue) others.0)
            λ _ k' r.
              RoundDone-cons k k₁ k' x (k.procs x).timeslice xs ys f.0 refl
                (not-member k.procs x xs ys q.distinct.0) s r)
