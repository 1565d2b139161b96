-- ===== src/Vm/Space/Entry.antt =====
-- The page table entries of p6/vm.c and the writes to them.
use cs537_spring.Prelude.{
  ℕ, ◌/◌, ◌%◌, ◌≡◌, ◌≤◌, ◌<◌, arith, ◌&&◌, Option, none, some, List, All, [], ◌∷◌, ◌==◌,
  if◌then◌else◌,
}
use cs537_spring.Vm.Space.{Space, entry, set_entry, in_use, phystop}

-- The mapping of a page: its entry, if it is in use.
abbrev pub visible : Option ℕ → Option ℕ
visible none = none
visible (some w) = if in_use w then some w else none

-- A frame that `kfree` accepts.
abbrev pub GoodFrame : Space → ℕ → Type 0
GoodFrame s f = (s.first ≤ f) × (f < phystop)

-- The frames of the free list are between the kernel and the top of memory.
abbrev pub GoodFree : Space → Type 0
GoodFree s = All (GoodFrame s) s.free

pub All-map : (P Q : ℕ → Type 0) (xs : List ℕ) → ((x : ℕ) → P x → Q x) → All P xs → All Q xs
All-map P Q [] f h = tt
All-map P Q (x ∷ xs) f h = (f x h.0, All-map P Q xs f h.1)

same_page : (j k : ℕ) → ((j / 1024 == k / 1024) && (j % 1024 == k % 1024)) ≡ (j == k)
same_page j k = ground arith

pub entry-set_entry :
    (j k v w : ℕ) (s : Space)
    → entry k s ≡ some v
    → entry j (set_entry k w s) ≡ (if j == k then some w else entry j s)
unfolding entry set_entry
entry-set_entry j k v w s e = ground (arith, same_page j k)

-- What a write to an entry leaves alone.
pub set_entry-rest :
    (k w : ℕ) (s : Space)
    → ((set_entry k w s).free ≡ s.free)
      × ((set_entry k w s).first ≡ s.first)
      × ((set_entry k w s).mem ≡ s.mem)
unfolding set_entry
set_entry-rest k w s = ground arith

-- The pages of one page table are in it or not together.
pub entry-none : (j k : ℕ) (s : Space) → entry k s ≡ none → j / 1024 ≡ k / 1024 → entry j s ≡ none
unfolding entry
entry-none j k s e h = ground arith
