-- ===== src/Sched/Wait/Pass.antt =====
-- The loop of `exit` of p4/src/proc.c, which passes the children to the first process.
use cs537_spring.Prelude.{
  ◌||◌, ℕ, zero, suc, ◌+◌, ◌≡◌, ◌≢◌, refl, arith, ap, sym, ◌∙◌, subst, Bool, true, false, ◌&&◌,
  Option, some, List, update, ◌==◌, if◌then◌else◌, Bool-cases, inl, inr, update_self,
}
use native.Mathlib.Decide.{ℕ_discrete}
use cs537_spring.Sched.Proc.{
  Proc, on, nproc, Kernel, Returns, Returns-bind, Returns-mono, set_proc, is_sleeping, is_zombie,
}
use cs537_spring.Sched.Queue.Chain.{NotIn-frame, set_proc-IsQueue}
use cs537_spring.Sched.Table.{wakeup1}
use cs537_spring.Sched.Table.Wakeup.{in_range, Woke}
use cs537_spring.Sched.Wait.{is_slot, is_child, pass_child, pass_from}
use cs537_spring.Sched.Wait.Sleepers.{Sleepers, Slot, Woke-Slot, wakeup1-Sleepers}

-- A write to a process that keeps its link, its pid and its state keeps the sleepers.
pub Sleepers-set :
    (k : Kernel) (p : ℕ) (c : Proc) (xs : List ℕ)
    → c.next ≡ (k.procs p).next
    → c.pid ≡ (k.procs p).pid
    → (is_sleeping c.state ≡ true → is_sleeping (k.procs p).state ≡ true)
    → Sleepers k xs
    → Sleepers (set_proc k p c) xs
Sleepers-set k p c xs en ep es s = record {
  queue = set_proc-IsQueue k p c xs en ep s.queue;
  outside = λ y a. NotIn-frame k.procs (update k.procs p c) y xs pid (s.outside y (asleep y a));
  apart = λ i j ne a b e. s.apart i j ne (asleep i a) (asleep j b) (sym (pid i) ∙ e ∙ pid j);
}
  where
    pid : (y : ℕ) → (update k.procs p c y).pid ≡ (k.procs y).pid
    pid y = ground arith

    asleep :
        (y : ℕ)
        → is_sleeping (update k.procs p c y).state ≡ true
        → is_sleeping (k.procs y).state ≡ true
    asleep y a = ground arith

-- The children among the slots of a test have passed to the first process.
pub record Passed (cur : ℕ) (test : ℕ → Bool) (k k' : Kernel) : Type 0 where
  pub sleepers : (xs : List ℕ) × Sleepers k' xs
  pub parents :
      (y : ℕ)
      → (k'.procs y).parent
        ≡ (if test y && is_child cur (k.procs y) then some k.initproc else (k.procs y).parent)
  pub asleep :
      (y : ℕ) → is_sleeping (k'.procs y).state ≡ true → is_sleeping (k.procs y).state ≡ true
  pub locked : k'.locked ≡ k.locked
  pub initproc : k'.initproc ≡ k.initproc

-- The child in slot `p`, with its new parent.
abbrev adopted : ℕ → Kernel → Kernel
adopted p k = set_proc k p (record (k.procs p) { parent = some k.initproc })

adopted-parent :
    (cur p y : ℕ) (k : Kernel)
    → is_child cur (k.procs p) ≡ true
    → ((adopted p k).procs y).parent
      ≡ (if (y == p) && is_child cur (k.procs y) then some k.initproc else (k.procs y).parent)
adopted-parent cur p y k h = elim (ℕ_discrete y p) [
  | yes e ↦
      subst
        (λ x.
          ((adopted p k).procs x).parent
          ≡ (if (x == p) && is_child cur (k.procs x) then some k.initproc else (k.procs x).parent))
        (sym e)
        (ap (λ c. c.parent)
            (update_self k.procs p (record (k.procs p) { parent = some k.initproc }))
          ∙ sym (ap (λ b. if b then some k.initproc else (k.procs p).parent) (both p h)))
  | no ne ↦ ground arith
]
  where
    both : (p : ℕ) → is_child cur (k.procs p) ≡ true → ((p == p) && is_child cur (k.procs p)) ≡ true
    both p h = ground (arith, h)

adopted-asleep :
    (p y : ℕ) (k : Kernel)
    → is_sleeping ((adopted p k).procs y).state ≡ true
    → is_sleeping (k.procs y).state ≡ true
adopted-asleep p y k a = ground arith

pass_child-Passed :
    (cur p : ℕ) (k : Kernel) (xs : List ℕ)
    → Sleepers k xs
    → Returns (λ _ k'. Passed cur (λ y. y == p) k k') (pass_child cur p k)
unfolding pass_child
pass_child-Passed cur p k xs s = elim (Bool-cases (is_child cur (k.procs p))) [
  | inr c ↦ rw c (record {
    sleepers = (xs, s);
    parents = λ y. sym (ap (λ b. if b then some k.initproc else (k.procs y).parent) (no_child y c));
    asleep = λ y a. a;
    locked = refl;
    initproc = refl;
  })
  | inl c ↦
      let s₁ =
        Sleepers-set k p (record (k.procs p) { parent = some k.initproc }) xs refl refl (λ a. a)
          s in
      elim (Bool-cases (is_zombie (k.procs p).state)) [
        | inr z ↦
            rw (c, z)
              (record {
                sleepers = (xs, s₁);
                parents = λ y. adopted-parent cur p y k c;
                asleep = λ y a. adopted-asleep p y k a;
                locked = refl;
                initproc = refl;
              })
        | inl z ↦
            rw (c, z)
              (Returns-mono _ _ (wakeup1 (on k.initproc) (adopted p k))
                (wakeup1-Sleepers (on k.initproc) (adopted p k) xs s₁)
                λ _ k' w. record {
                  sleepers = (_, w.0);
                  parents = λ y. (slot k' w.1 y).parent ∙ adopted-parent cur p y k c;
                  asleep = λ y a. adopted-asleep p y k ((slot k' w.1 y).asleep a);
                  locked = w.1.locked;
                  initproc = w.1.initproc;
                })
      ]
]
  where
    slot :
        (k' : Kernel)
        → Woke (on k.initproc) (adopted p k) nproc 0 xs k'
        → (y : ℕ)
        → Slot (on k.initproc) k.ticks (in_range 0 nproc y) ((adopted p k).procs y) (k'.procs y)
    slot k' w y =
        Woke-Slot (on k.initproc) k.ticks (in_range 0 nproc y) ((adopted p k).procs y) (k'.procs y)
          (w.slots y)

    no_child :
        (y : ℕ) → is_child cur (k.procs p) ≡ false → ((y == p) && is_child cur (k.procs y)) ≡ false
    no_child y c = elim (ℕ_discrete y p) [
      | yes e ↦ subst (λ x. ((x == p) && is_child cur (k.procs x)) ≡ false) (sym e) (none_at p c)
      | no ne ↦ different y ne
    ]
      where
        none_at :
            (p : ℕ)
            → is_child cur (k.procs p) ≡ false
            → ((p == p) && is_child cur (k.procs p)) ≡ false
        none_at p c = ground (arith, c)

        different : (y : ℕ) → y ≢ p → ((y == p) && is_child cur (k.procs y)) ≡ false
        different y ne = ground arith

-- The parent of a process after two passes over slots.
combine :
    (cur init init₁ : ℕ) (o o₁ o' : Option ℕ) (t t₁ both : Bool)
    → both ≡ (t || t₁)
    → init₁ ≡ init
    → is_slot cur (some init) ≡ false
    → o₁ ≡ (if t && is_slot cur o then some init else o)
    → o' ≡ (if t₁ && is_slot cur o₁ then some init₁ else o₁)
    → o' ≡ (if both && is_slot cur o then some init else o)
combine cur init init₁ o o₁ o' t t₁ both e ei ne a b = elim (Bool-cases (t && is_slot cur o)) [
  | inl h ↦
      let first : o₁ ≡ some init = a ∙ ap (λ x. if x then some init else o) h in
      let second : o' ≡ some init =
        b
        ∙ ap (λ x. if t₁ && is_slot cur x then some init₁ else x) first
        ∙ ap (λ x. if t₁ && x then some init₁ else some init) ne
        ∙ never t₁ in
      let yes : (both && is_slot cur o) ≡ true = ground (arith, e, h) in
      second ∙ sym (ap (λ x. if x then some init else o) yes)
  | inr h ↦
      let first : o₁ ≡ o = a ∙ ap (λ x. if x then some init else o) h in
      let same : (t₁ && is_slot cur o) ≡ (both && is_slot cur o) = ground (arith, e, h) in
      b
      ∙ ap (λ x. if t₁ && is_slot cur x then some init₁ else x) first
      ∙ ap (λ x. if x then some init₁ else o) same
      ∙ ap (λ x. if both && is_slot cur o then some x else o) ei
]
  where
    never : (t₁ : Bool) → (if t₁ && false then some init₁ else some init) ≡ some init
    never true = refl
    never false = refl

range_suc : (i n y : ℕ) → in_range i (suc n) y ≡ ((y == i) || in_range (i + 1) n y)
range_suc i n y = ground arith

-- A slot, and those after it.
module _ (cur n i : ℕ) (k k₁ k' : Kernel) (other : cur ≢ k.initproc)
    (a : Passed cur (λ y. y == i) k k₁) (b : Passed cur (in_range (i + 1) n) k₁ k') where
  passed_parent :
      (y : ℕ)
      → (k'.procs y).parent ≡ (
          if in_range i (suc n) y && is_child cur (k.procs y)
          then some k.initproc
          else (k.procs y).parent)
  passed_parent y =
      combine cur k.initproc k₁.initproc (k.procs y).parent (k₁.procs y).parent (k'.procs y).parent
        (y == i) (in_range (i + 1) n y) (in_range i (suc n) y) (range_suc i n y) a.initproc
        (ground (arith, other)) (a.parents y) (b.parents y)

  Passed-trans : Passed cur (in_range i (suc n)) k k'
  Passed-trans = record {
    sleepers = b.sleepers;
    parents = passed_parent;
    asleep = λ y h. a.asleep y (b.asleep y h);
    locked = b.locked ∙ a.locked;
    initproc = b.initproc ∙ a.initproc;
  }

no_range : (i y : ℕ) → in_range i 0 y ≡ false
no_range i y = ground arith

pub pass_from-Passed :
    (cur n i : ℕ) (k : Kernel) (xs : List ℕ)
    → cur ≢ k.initproc
    → Sleepers k xs
    → Returns (λ _ k'. Passed cur (in_range i n) k k') (pass_from cur n i k)
unfolding pass_from
pass_from-Passed cur zero i k xs ne s = record {
  sleepers = (xs, s);
  parents = λ y. sym (
      ap (λ b. if b && is_child cur (k.procs y) then some k.initproc else (k.procs y).parent)
        (no_range i y));
  asleep = λ y a. a;
  locked = refl;
  initproc = refl;
}
pass_from-Passed cur (suc n) i k xs ne s =
    Returns-bind (λ _ k₁. Passed cur (λ y. y == i) k k₁) _ (pass_child cur i k) _
      (pass_child-Passed cur i k xs s)
      λ _ k₁ a.
        Returns-mono _ _ (pass_from cur n (i + 1) k₁)
          (pass_from-Passed cur n (i + 1) k₁ a.sleepers.0 (λ e. ne (e ∙ a.initproc)) a.sleepers.1)
          λ _ k' b. Passed-trans cur n i k k₁ k' ne a b
