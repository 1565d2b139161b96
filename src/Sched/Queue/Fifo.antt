-- ===== src/Sched/Queue/Fifo.antt =====
-- `push` and `pop` against the list of slots that the linked queue stands for.
use cs537_spring.Prelude.{
  ℕ, ◌≡◌, ◌≢◌, refl, Option, none, some, List, [], ◌∷◌, ◌++◌, arith, sym, subst, ◌∙◌, true, false,
  ◌==◌,
}
use cs537_spring.Sched.Proc.{Proc, Kernel, ok, Returns}
use mathlib.Core.Path.{subst₂}
use cs537_spring.Sched.Queue.{relink, push_at, push, pop_at, pop}
use cs537_spring.Sched.Queue.Chain.{first, last, Linked, NotIn, Distinct, IsQueue, SameBut}

pid-relink : (f : ℕ → Proc) (t p x : ℕ) → (relink f t p x).pid ≡ (f x).pid
pid-relink f t p x = ground arith

NotIn-relink : (f : ℕ → Proc) (t p q : ℕ) (xs : List ℕ) → NotIn f q xs → NotIn (relink f t p) q xs
NotIn-relink f t p q [] h = tt
NotIn-relink f t p q (x ∷ xs) h =
    (λ e. h.0 (ground (arith, pid-relink f t p x, pid-relink f t p q)), NotIn-relink f t p q xs h.1)

-- The last slot is one of the list.
last-ne :
    (f : ℕ → Proc) (p t : ℕ) (xs : List ℕ) → NotIn f p xs → last xs ≡ some t → (f t).pid ≢ (f p).pid
last-ne f p t [] h e = cc
last-ne f p t (x ∷ []) h e = ground arith
last-ne f p t (x ∷ y ∷ r) h e = last-ne f p t (y ∷ r) h.1 e

last-snoc : (p : ℕ) (xs : List ℕ) → last (xs ++ p ∷ []) ≡ some p
last-snoc p [] = refl
last-snoc p (x ∷ []) = refl
last-snoc p (x ∷ y ∷ r) = last-snoc p (y ∷ r)

Linked-relink :
    (f : ℕ → Proc) (t p x : ℕ) (xs : List ℕ)
    → last (x ∷ xs) ≡ some t
    → Linked f (x ∷ xs)
    → Distinct f (x ∷ xs)
    → NotIn f p (x ∷ xs)
    → Linked (relink f t p) ((x ∷ xs) ++ p ∷ [])
Linked-relink f t p x [] e h d n = (ground arith, ground arith)
Linked-relink f t p x (y ∷ r) e h d n =
    (ground (arith, last-ne f x t (y ∷ r) d.0 e), Linked-relink f t p y r e h.1 d.1 n.1)

NotIn-snoc :
    (f : ℕ → Proc) (x p : ℕ) (xs : List ℕ)
    → NotIn f x xs
    → (f p).pid ≢ (f x).pid
    → NotIn f x (xs ++ p ∷ [])
NotIn-snoc f x p [] h n = (n, tt)
NotIn-snoc f x p (y ∷ ys) h n = (h.0, NotIn-snoc f x p ys h.1 n)

pub Distinct-snoc :
    (f : ℕ → Proc) (p : ℕ) (xs : List ℕ) → Distinct f xs → NotIn f p xs → Distinct f (xs ++ p ∷ [])
Distinct-snoc f p [] d n = (tt, tt)
Distinct-snoc f p (x ∷ xs) d n =
    (NotIn-snoc f x p xs d.0 (λ e. n.0 (ground arith)), Distinct-snoc f p xs d.1 n.1)

Distinct-relink :
    (f : ℕ → Proc) (t p : ℕ) (xs : List ℕ) → Distinct f xs → Distinct (relink f t p) xs
Distinct-relink f t p [] d = tt
Distinct-relink f t p (x ∷ xs) d = (NotIn-relink f t p x xs d.0, Distinct-relink f t p xs d.1)

last-some : (x : ℕ) (xs : List ℕ) → (t : ℕ) × (last (x ∷ xs) ≡ some t)
last-some x [] = (x, refl)
last-some x (y ∷ r) = last-some y r

-- What `push` does to a queue with a last slot.
push_at-IsQueue :
    (k : Kernel) (p h t : ℕ) (xs : List ℕ)
    → IsQueue k xs
    → NotIn k.procs p xs
    → first xs ≡ some h
    → last xs ≡ some t
    → IsQueue (record k { procs = relink k.procs t p; tail = some p }) (xs ++ p ∷ [])
push_at-IsQueue k p h t [] q n e l = absurd (cc)
push_at-IsQueue k p h t (x ∷ xs) q n e l = record {
  head_first = q.head_first;
  tail_last = sym (last-snoc p (x ∷ xs));
  linked = Linked-relink k.procs t p x xs l q.linked q.distinct n;
  distinct =
      Distinct-snoc (relink k.procs t p) p (x ∷ xs)
        (Distinct-relink k.procs t p (x ∷ xs) q.distinct) (NotIn-relink k.procs t p p (x ∷ xs) n);
}

relink-SameBut :
    (k : Kernel) (t p : ℕ) (tail : Option ℕ)
    → SameBut k (record k { procs = relink k.procs t p; tail = tail })
relink-SameBut k t p tail = record {
  procs = λ x. ground arith;
  nextpid = refl;
  initproc = refl;
  locked = refl;
  ticks = refl;
}

-- Enqueueing a process whose pid is not in the queue reads no null pointer, puts the process
-- behind the others, and changes nothing but the links and the ends of the queue.
pub push-IsQueue :
    (k : Kernel) (p : ℕ) (xs : List ℕ)
    → IsQueue k xs
    → NotIn k.procs p xs
    → Returns (λ _ k'. IsQueue k' (xs ++ p ∷ []) × SameBut k k') (push (some p) k)
unfolding push
push-IsQueue k p [] q n =
    subst (λ h. Returns (λ _ k'. IsQueue k' (p ∷ []) × SameBut k k') (push_at p k h k.tail))
      (sym q.head_first)
      (
        record { head_first = refl; tail_last = refl; linked = ground arith; distinct = (tt, tt) },
        record {
          procs = λ x. ground arith;
          nextpid = refl;
          initproc = refl;
          locked = refl;
          ticks = refl;
        },
      )
push-IsQueue k p (x ∷ xs) q n =
    let (t, e) = last-some x xs in
    subst₂
      (λ h l. Returns (λ _ k'. IsQueue k' ((x ∷ xs) ++ p ∷ []) × SameBut k k') (push_at p k h l))
      (sym q.head_first) (sym (q.tail_last ∙ e))
      (push_at-IsQueue k p x t (x ∷ xs) q n refl e, relink-SameBut k t p (some p))

SameBut-ends : (k : Kernel) (h t : Option ℕ) → SameBut k (record k { head = h; tail = t })
SameBut-ends k h t = record {
  procs = λ x. refl;
  nextpid = refl;
  initproc = refl;
  locked = refl;
  ticks = refl;
}

-- What `pop` leaves behind a queue whose first slot is `x`.
pop_at-IsQueue :
    (k : Kernel) (x t : ℕ) (xs : List ℕ)
    → IsQueue k (x ∷ xs)
    → last (x ∷ xs) ≡ some t
    → Returns
        (λ _ k'. IsQueue k' xs × (k'.procs ≡ k.procs) × SameBut k k')
        (pop_at k (some x) (some t))
unfolding pop_at
pop_at-IsQueue k x t [] q e =
    let one : ((k.procs x).pid == (k.procs t).pid) ≡ true = ground arith in
    rw one (record { head_first = refl; tail_last = refl; linked = tt; distinct = tt }, refl, same)
  where
    same : SameBut k (record k { head = none; tail = none })
    same = SameBut-ends k none none
pop_at-IsQueue k x t (y ∷ r) q e =
    let more : ((k.procs x).pid == (k.procs t).pid) ≡ false =
      ground (arith, last-ne k.procs x t (y ∷ r) q.distinct.0 e) in
    rw more (
      record {
        head_first = q.linked.0;
        tail_last = q.tail_last;
        linked = q.linked.1;
        distinct = q.distinct.1;
      },
      refl,
      SameBut-ends k (k.procs x).next k.tail,
    )

-- Dequeueing removes the first process, and changes nothing but the ends of the queue.
pub pop-IsQueue :
    (k : Kernel) (x : ℕ) (xs : List ℕ)
    → IsQueue k (x ∷ xs)
    → Returns (λ _ k'. IsQueue k' xs × (k'.procs ≡ k.procs) × SameBut k k') (pop k)
unfolding pop
pop-IsQueue k x xs q =
    let (t, e) = last-some x xs in
    subst₂
      (λ h l. Returns (λ _ k'. IsQueue k' xs × (k'.procs ≡ k.procs) × SameBut k k') (pop_at k h l))
      (sym q.head_first) (sym (q.tail_last ∙ e)) (pop_at-IsQueue k x t xs q e)

-- Dequeueing from an empty queue changes nothing.
pub pop-nil : (k : Kernel) → IsQueue k [] → pop k ≡ ok tt k
unfolding pop
pop-nil k q = subst (λ h. pop_at k h k.tail ≡ ok tt k) (sym q.head_first) refl
