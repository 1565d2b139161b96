-- ===== src/Sched/Queue/Chain.antt =====
-- What the linked queue stands for: the list of its slots, head first.
use cs537_spring.Prelude.{
  ℕ, ◌≡◌, ◌≢◌, Option, none, some, List, [], ◌∷◌, ◌++◌, arith, All, update, sym, subst, ◌∙◌,
}
use cs537_spring.Sched.Proc.{Proc, Kernel, set_proc}

abbrev pub first : List ℕ → Option ℕ
first [] = none
first (x ∷ xs) = some x

abbrev pub last : List ℕ → Option ℕ
last [] = none
last (x ∷ []) = some x
last (x ∷ y ∷ r) = last (y ∷ r)

-- Each slot's `next` is the one behind it, and that of the last one is null.
abbrev pub Linked : (ℕ → Proc) → List ℕ → Type 0
Linked f [] = Unit
Linked f (x ∷ []) = (f x).next ≡ none
Linked f (x ∷ y ∷ r) = ((f x).next ≡ some y) × Linked f (y ∷ r)

-- No process of the list has the pid of slot `p`.
abbrev pub NotIn : (ℕ → Proc) → ℕ → List ℕ → Type 0
NotIn f p xs = All (λ x. (f x).pid ≢ (f p).pid) xs

abbrev pub Distinct : (ℕ → Proc) → List ℕ → Type 0
Distinct f [] = Unit
Distinct f (x ∷ xs) = NotIn f x xs × Distinct f xs

-- The queue holds the processes of `xs` in this order, with different pids.
pub record IsQueue (k : Kernel) (xs : List ℕ) : Type 0 where
  pub head_first : k.head ≡ first xs
  pub tail_last : k.tail ≡ last xs
  pub linked : Linked k.procs xs
  pub distinct : Distinct k.procs xs

-- Tables that agree on the links, or on the pids.
abbrev pub SameNext : (ℕ → Proc) → (ℕ → Proc) → Type 0
SameNext f g = (x : ℕ) → (g x).next ≡ (f x).next

abbrev pub SamePid : (ℕ → Proc) → (ℕ → Proc) → Type 0
SamePid f g = (x : ℕ) → (g x).pid ≡ (f x).pid

pub Linked-frame : (f g : ℕ → Proc) (xs : List ℕ) → SameNext f g → Linked f xs → Linked g xs
Linked-frame f g [] same h = tt
Linked-frame f g (x ∷ []) same h = same x ∙ h
Linked-frame f g (x ∷ y ∷ r) same h = (same x ∙ h.0, Linked-frame f g (y ∷ r) same h.1)

pub NotIn-frame : (f g : ℕ → Proc) (p : ℕ) (xs : List ℕ) → SamePid f g → NotIn f p xs → NotIn g p xs
NotIn-frame f g p [] same h = tt
NotIn-frame f g p (x ∷ xs) same h =
    (λ e. h.0 (sym (same x) ∙ e ∙ same p), NotIn-frame f g p xs same h.1)

pub Distinct-frame : (f g : ℕ → Proc) (xs : List ℕ) → SamePid f g → Distinct f xs → Distinct g xs
Distinct-frame f g [] same h = tt
Distinct-frame f g (x ∷ xs) same h = (NotIn-frame f g x xs same h.0, Distinct-frame f g xs same h.1)

-- What stands in front of a slot in a list of distinct processes.
pub Distinct-NotIn :
    (f : ℕ → Proc) (p : ℕ) (xs r : List ℕ) → Distinct f (xs ++ p ∷ r) → NotIn f p xs
Distinct-NotIn f p [] r d = tt
Distinct-NotIn f p (x ∷ xs) r d =
    (λ e. NotIn-mid f x p xs r d.0 (sym e), Distinct-NotIn f p xs r d.1)
  where
    NotIn-mid :
        (f : ℕ → Proc) (x p : ℕ) (ys r : List ℕ) → NotIn f x (ys ++ p ∷ r) → (f p).pid ≢ (f x).pid
    NotIn-mid f x p [] r n = n.0
    NotIn-mid f x p (y ∷ ys) r n = NotIn-mid f x p ys r n.1

-- What an operation on the queue leaves alone: every field of a process but `next`, and every
-- global but the ends of the queue.
pub record SameBut (k k' : Kernel) : Type 0 where
  pub procs : (x : ℕ) → k'.procs x ≡ record (k.procs x) { next = (k'.procs x).next }
  pub nextpid : k'.nextpid ≡ k.nextpid
  pub initproc : k'.initproc ≡ k.initproc
  pub locked : k'.locked ≡ k.locked
  pub ticks : k'.ticks ≡ k.ticks

-- A write to a process that keeps its pid and its link keeps the queue.
pub set_proc-IsQueue :
    (k : Kernel) (p : ℕ) (c : Proc) (xs : List ℕ)
    → c.next ≡ (k.procs p).next
    → c.pid ≡ (k.procs p).pid
    → IsQueue k xs
    → IsQueue (set_proc k p c) xs
set_proc-IsQueue k p c xs e d q = record {
  head_first = q.head_first;
  tail_last = q.tail_last;
  linked = Linked-frame k.procs (update k.procs p c) xs (λ x. ground arith) q.linked;
  distinct = Distinct-frame k.procs (update k.procs p c) xs (λ x. ground arith) q.distinct;
}

-- A write to a slot outside the queue keeps the queue, whatever is written.
module _ (f : ℕ → Proc) (p : ℕ) (c : Proc) where
  Linked-update : (xs : List ℕ) → All (λ x. x ≢ p) xs → Linked f xs → Linked (update f p c) xs
  Linked-update [] out h = tt
  Linked-update (x ∷ []) out h = ground arith
  Linked-update (x ∷ y ∷ r) out h = (ground arith, Linked-update (y ∷ r) out.1 h.1)

  NotIn-update :
      (x : ℕ) (xs : List ℕ) → x ≢ p → All (λ y. y ≢ p) xs → NotIn f x xs → NotIn (update f p c) x xs
  NotIn-update x [] ne out h = tt
  NotIn-update x (y ∷ ys) ne out h = (ground arith, NotIn-update x ys ne out.1 h.1)

  Distinct-update : (xs : List ℕ) → All (λ x. x ≢ p) xs → Distinct f xs → Distinct (update f p c) xs
  Distinct-update [] out h = tt
  Distinct-update (x ∷ xs) out h = (NotIn-update x xs out.0 out.1 h.0, Distinct-update xs out.1 h.1)

pub set_new-IsQueue :
    (k : Kernel) (p : ℕ) (c : Proc) (xs : List ℕ)
    → All (λ x. x ≢ p) xs
    → IsQueue k xs
    → IsQueue (set_proc k p c) xs
set_new-IsQueue k p c xs out q = record {
  head_first = q.head_first;
  tail_last = q.tail_last;
  linked = Linked-update k.procs p c xs out q.linked;
  distinct = Distinct-update k.procs p c xs out q.distinct;
}

-- The queue reads nothing but its two ends and the table.
pub IsQueue-congr :
    (k k' : Kernel) (xs : List ℕ)
    → k'.head ≡ k.head
    → k'.tail ≡ k.tail
    → k'.procs ≡ k.procs
    → IsQueue k xs
    → IsQueue k' xs
IsQueue-congr k k' xs h t p q = record {
  head_first = h ∙ q.head_first;
  tail_last = t ∙ q.tail_last;
  linked = subst (λ f. Linked f xs) (sym p) q.linked;
  distinct = subst (λ f. Distinct f xs) (sym p) q.distinct;
}
