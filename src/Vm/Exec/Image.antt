-- ===== src/Vm/Exec/Image.antt =====
-- The image that `exec` of p6/exec.c leaves.
use cs537_spring.Prelude.{
  ℕ, ◌+◌, ◌*◌, ◌/◌, ◌≡◌, ◌≤◌, ◌<◌, true, ◌&&◌, ◌||◌, not, some, if◌then◌else◌,
}
use cs537_spring.Vm.Word.{has, pte_p, pte_u, pte_e, pgsize, sealed}
use cs537_spring.Vm.Machine.{Machine, clocksize, empty_slot, load_pte, same_entry}
use cs537_spring.Vm.Clock.Resident.{IsResident}

-- An entry after its page has been encrypted, if it is a user's and not encrypted yet.
abbrev pub image_entry : ℕ → ℕ
image_entry w = if has pte_u w && not (has pte_e w) then sealed w else w

-- The pages below `n` have page tables, and those of the user are present or encrypted.
abbrev pub Image : ℕ → Machine → Type 0
Image n m =
    (j : ℕ)
    → j < n
    → (w : ℕ) × (load_pte (j * pgsize) m ≡ some w)
      × ((not (has pte_u w) || has pte_p w || has pte_e w) ≡ true)

-- The pages up to `k` are encrypted, the others are as before, and so is the working set.
pub record Imaged (n k : ℕ) (m m' : Machine) : Type 0 where
  pub sealed_pages :
      (j w : ℕ)
      → j < k
      → load_pte (j * pgsize) m ≡ some w
      → load_pte (j * pgsize) m' ≡ some (image_entry w)
  pub others : (j : ℕ) → k ≤ j → j < n → load_pte (j * pgsize) m' ≡ load_pte (j * pgsize) m
  pub queue : m'.clockqueue ≡ m.clockqueue
  pub hand : m'.clockhand ≡ m.clockhand

-- `mencrypt` of one user page.
record Sealing (a w : ℕ) (m m' : Machine) : Type 0 where
  entry : (b : ℕ) → load_pte b m' ≡ (if same_entry a b then some (image_entry w) else load_pte b m)
  queue : m'.clockqueue ≡ m.clockqueue
  hand : m'.clockhand ≡ m.clockhand

-- The number of pages of a size.
abbrev pub pages_of : ℕ → ℕ
pages_of sz = (sz + 4095) / 4096

-- The state that `exec` leaves: each page with its entry, and an empty working set.
pub record Executed (n : ℕ) (m m' : Machine) : Type 0 where
  pub pages :
      (j w : ℕ)
      → j < n
      → load_pte (j * pgsize) m ≡ some w
      → load_pte (j * pgsize) m' ≡ some (image_entry w)
  pub empty : (s : ℕ) → s < clocksize → m'.clockqueue s ≡ empty_slot
  pub resident : IsResident m'
