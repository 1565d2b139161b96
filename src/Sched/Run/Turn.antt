-- ===== src/Sched/Run/Turn.antt =====
-- One turn of the scheduler's loop, by what it finds at the head of the queue.
use cs537_spring.Prelude.{
  ℕ, ◌+◌, ◌≡◌, refl, some, List, [], ◌∷◌, ◌++◌, arith, sym, subst, ap, true, false, ◌≢◌, update,
  ◌∙◌,
}
use cs537_spring.Sched.Proc.{
  ProcState, Proc, Kernel, ok, Returns, is_runnable, set_proc, Returns-bind, is_sleeping,
}
use cs537_spring.Sched.Queue.Chain.{IsQueue, SameBut, NotIn, set_proc-IsQueue}
use cs537_spring.Sched.Queue.Fifo.{pop-IsQueue, push-IsQueue}
use cs537_spring.Sched.Queue.{push, pop}
use cs537_spring.Sched.Run.{turn, turn_at, expire, charge, retire, has_ticks, requeue}

-- On an empty queue the loop ends and nothing changes.
pub turn-nil : (swtch : ℕ → Kernel → Kernel) (k : Kernel) → IsQueue k [] → turn swtch k ≡ ok false k
unfolding turn
turn-nil swtch k q = subst (λ h. turn_at swtch h k ≡ ok false k) (sym q.head_first) refl

-- A process at the head that is not runnable is taken off the queue, whoever it is, and nothing
-- else changes.
pub turn-skip :
    (swtch : ℕ → Kernel → Kernel) (k : Kernel) (x : ℕ) (xs : List ℕ)
    → IsQueue k (x ∷ xs)
    → is_runnable (k.procs x).state ≡ false
    → Returns (λ more k'. (more ≡ true) × IsQueue k' xs × (k'.procs ≡ k.procs)) (turn swtch k)
unfolding turn
turn-skip swtch k x xs q h =
    subst
      (λ o.
        Returns (λ more k'. (more ≡ true) × IsQueue k' xs × (k'.procs ≡ k.procs))
          (turn_at swtch o k))
      (sym q.head_first)
      (rw h (
        Returns-bind (λ _ k'. IsQueue k' xs × (k'.procs ≡ k.procs) × SameBut k k') _ (pop k) _
          (pop-IsQueue k x xs q) λ _ k' r. (refl, r.0, r.1)))

-- A runnable process at the head that has ticks left runs: it is charged one tick before it is
-- switched to, and a compensation tick if it is past its time slice.
pub turn-run :
    (swtch : ℕ → Kernel → Kernel) (k : Kernel) (x : ℕ) (xs : List ℕ)
    → IsQueue k (x ∷ xs)
    → is_runnable (k.procs x).state ≡ true
    → has_ticks (k.procs x) ≡ true
    → turn swtch k ≡ ok true (swtch x (set_proc k x (charge (k.procs x))))
unfolding turn
turn-run swtch k x xs q r h =
    subst (λ o. turn_at swtch o k ≡ ok true (swtch x (set_proc k x (charge (k.procs x)))))
      (sym q.head_first) (rw (r, h))

not-sleeping : (s : ProcState) → is_runnable s ≡ true → is_sleeping s ≡ false
not-sleeping s h = ground arith

-- What a turn does to the queue and to the process whose quantum is used up.
pub record Rotated (k : Kernel) (x : ℕ) (xs : List ℕ) (k' : Kernel) : Type 0 where
  pub queue : IsQueue k' (xs ++ x ∷ [])
  pub self : k'.procs x ≡ record (k.procs x) {
    switches = (k.procs x).switches + 1;
    activesleepticks = 0;
    activeticks = 0;
    next = (k'.procs x).next;
  }
  pub others : (y : ℕ) → y ≢ x → k'.procs y ≡ record (k.procs y) { next = (k'.procs y).next }
  pub locked : k'.locked ≡ k.locked

requeue-Rotated :
    (k k₁ : Kernel) (x : ℕ) (xs : List ℕ)
    → k₁.procs ≡ update k.procs x (retire (k.procs x))
    → k₁.locked ≡ k.locked
    → IsQueue k₁ xs
    → NotIn k₁.procs x xs
    → Returns (λ _ k'. Rotated k x xs k') (requeue x k₁)
requeue-Rotated k k₁ x xs e l q n =
    Returns-bind (λ _ k'. IsQueue k' (xs ++ x ∷ []) × SameBut k₁ k') _ (push (some x) k₁) _
      (push-IsQueue k₁ x xs q n)
      λ _ k' r. record {
        queue = set_proc-IsQueue k' x _ (xs ++ x ∷ []) refl refl r.0;
        self = ground (arith, r.1.procs x, ap (λ (f : ℕ → Proc). f x) e);
        others = λ y d. ground (arith, r.1.procs y, ap (λ (f : ℕ → Proc). f y) e);
        locked = r.1.locked ∙ l;
      }

expire-Rotated :
    (k : Kernel) (x : ℕ) (xs : List ℕ)
    → IsQueue k (x ∷ xs)
    → is_sleeping (k.procs x).state ≡ false
    → Returns (λ _ k'. Rotated k x xs k') (expire x k)
unfolding expire
expire-Rotated k x xs q s =
    let marked = set_proc-IsQueue k x (retire (k.procs x)) (x ∷ xs) refl refl q in
    Returns-bind
      (λ _ k'.
        IsQueue k' xs
        × (k'.procs ≡ (update k.procs x (retire (k.procs x))))
        × SameBut (set_proc k x (retire (k.procs x))) k')
      _ (pop (set_proc k x (retire (k.procs x)))) _ (pop-IsQueue _ x xs marked)
      λ _ k₁ r.
        let awake : is_sleeping (k₁.procs x).state ≡ false =
          ground (arith, ap (λ (f : ℕ → Proc). f x) r.1) in
        rw awake (requeue-Rotated k k₁ x xs r.1 r.2.locked r.0 (rw r.1 marked.distinct.0))

-- A runnable process at the head that has used up its ticks goes behind the others, its tick
-- counters are reset, one more switch is counted, and no other process changes but in its link.
pub turn-rotate :
    (swtch : ℕ → Kernel → Kernel) (k : Kernel) (x : ℕ) (xs : List ℕ)
    → IsQueue k (x ∷ xs)
    → is_runnable (k.procs x).state ≡ true
    → has_ticks (k.procs x) ≡ false
    → Returns (λ more k'. (more ≡ true) × Rotated k x xs k') (turn swtch k)
unfolding turn
turn-rotate swtch k x xs q r h =
    subst (λ o. Returns (λ more k'. (more ≡ true) × Rotated k x xs k') (turn_at swtch o k))
      (sym q.head_first)
      (rw (r, h)
        (Returns-bind (λ _ k'. Rotated k x xs k') _ (expire x k) _
          (expire-Rotated k x xs q (not-sleeping (k.procs x).state r)) λ _ k' r. (refl, r)))
