-- ===== src/Vm/Machine.antt =====
-- The state that p6/vm.c works on: the current process's page directory, working set and clock
-- hand, and the physical memory. A page table entry is reached by the two indices of an address;
-- `none` in the directory is an entry without PTE_P, so that `walkpgdir` returns a null pointer.
-- The reference bit is also set by the processor: such writes happen between the operations.
use cs537_spring.Prelude.{
  ℕ, ◌≡◌, Bool, true, Option, none, some, ℤ, update, ◌==◌, ◌&&◌, if◌then◌else◌, arith,
}
use cs537_spring.Vm.Word.{pdx, ptx}

pub record Machine : Type 0 where
  pub dir : ℕ → Option (ℕ → ℕ)
  pub mem : ℕ → ℕ → ℕ
  pub sz : ℕ
  pub clockqueue : ℕ → ℕ
  pub clockhand : ℤ

abbrev pub clocksize : ℕ
clocksize = 8

-- The slot marker `(char *)-1`.
abbrev pub empty_slot : ℕ
empty_slot = 0xffff_ffff

-- `walkpgdir(pgdir, va, 0)`, read through, and a write through it where it is not null.
unfoldable pub load_pte : ℕ → Machine → Option ℕ
load_pte va m = elim (m.dir (pdx va)) [ none ↦ none | some table ↦ some (table (ptx va)) ]

unfoldable pub store_pte : ℕ → ℕ → Machine → Machine
store_pte va w m = elim (m.dir (pdx va)) [
  | none ↦ m
  | some table ↦ record m { dir = update m.dir (pdx va) (some (update table (ptx va) w)) }
]

-- Two addresses with one page table entry.
abbrev pub same_entry : ℕ → ℕ → Bool
same_entry a b = (pdx a == pdx b) && (ptx a == ptx b)

pub load-store :
    (a b w v : ℕ) (m : Machine)
    → load_pte a m ≡ some v
    → load_pte b (store_pte a w m) ≡ (if same_entry a b then some w else load_pte b m)
unfolding load_pte store_pte
load-store a b w v m e = ground arith

-- What a write to a page table entry leaves alone.
pub record SameRest (m m' : Machine) : Type 0 where
  pub mem : m'.mem ≡ m.mem
  pub sz : m'.sz ≡ m.sz
  pub clockqueue : m'.clockqueue ≡ m.clockqueue
  pub clockhand : m'.clockhand ≡ m.clockhand

pub store-SameRest : (a w : ℕ) (m : Machine) → SameRest m (store_pte a w m)
unfolding store_pte
store-SameRest a w m = ground arith

-- An operation returns, reads through a null pointer or outside an array, or has not ended when
-- its fuel is used up.
pub data Result (A : Type 0) : Type 0 where
  ok : A → Machine → Result A
  fault : Result A
  out_of_fuel : Result A

abbrev pub Command : Type 0 → Type 0
Command A = Machine → Result A

module _ {A B : Type 0} where
  abbrev pub and_then : Result A → (A → Command B) → Result B
  and_then (ok a m) f = f a m
  and_then fault f = fault
  and_then out_of_fuel f = out_of_fuel

-- A step on a value that may be missing: `null` is what happens without it.
abbrev pub with_some : {A : Type 0} → Result A → Option ℕ → (ℕ → Result A) → Result A
with_some null none f = null
with_some null (some w) f = f w

-- Total correctness of a run.
abbrev pub Returns : {A : Type 0} → (A → Machine → Type 0) → Result A → Type 0
Returns P (ok a m) = P a m
Returns P fault = ⊥
Returns P out_of_fuel = ⊥

pub Returns-bind :
    {A B : Type 0} (P : A → Machine → Type 0) (Q : B → Machine → Type 0) (r : Result A)
    (f : A → Command B)
    → Returns P r
    → ((a : A) (m : Machine) → P a m → Returns Q (f a m))
    → Returns Q (and_then r f)
Returns-bind P Q (ok a m) f h next = next a m h
Returns-bind P Q fault f h next = absurd h
Returns-bind P Q out_of_fuel f h next = absurd h

pub Returns-mono :
    {A : Type 0} (P Q : A → Machine → Type 0) (r : Result A)
    → Returns P r
    → ((a : A) (m : Machine) → P a m → Q a m)
    → Returns Q r
Returns-mono P Q (ok a m) h weaken = weaken a m h
Returns-mono P Q fault h weaken = absurd h
Returns-mono P Q out_of_fuel h weaken = absurd h

pub load-same_entry : (a b : ℕ) (m : Machine) → same_entry a b ≡ true → load_pte b m ≡ load_pte a m
unfolding load_pte
load-same_entry a b m h = ground arith
