-- ===== src/Vm/Table/Select.antt =====
-- `getpgtable` against the selection of the pages that are asked for.
use cs537_spring.Prelude.{
  ℕ, zero, suc, ◌+◌, ◌*◌, ◌/◌, ◌≡◌, refl, Bool, false, ◌||◌, ◌&&◌, ◌%◌, ◌^◌, not, List, [], ◌∷◌,
  ◌++◌, ◌==◌, if◌then◌else◌, Option, some, none,
}
use cs537_spring.Vm.Word.{pgsize}
use cs537_spring.Vm.Machine.{Machine, load_pte}
use cs537_spring.Vm.Crypt.Pages.{Mapped}
use cs537_spring.Vm.Table.{PtEntry, pt_entry, here}

-- The entry of a page, or 0 where there is none.
abbrev or_zero : Option ℕ → ℕ
or_zero none = 0
or_zero (some w) = w

-- The pages that the loop reports, from page `k` down.
abbrev shown_page : Bool → ℕ → Machine → List PtEntry
shown_page wset_only i m = here wset_only i (or_zero (load_pte i m)) m

abbrev shown : Bool → ℕ → Machine → List PtEntry
shown wset_only zero m = shown_page wset_only 0 m
shown wset_only (suc k) m = shown_page wset_only (suc k * pgsize) m ++ shown wset_only k m

-- Is the address in one of the `n` slots of the queue from slot `s` on?
abbrev pub queued : ℕ → ℕ → ℕ → Machine → Bool
queued zero s i m = false
queued (suc n) s i m = (m.clockqueue s == i) || queued n (s + 1) i m

-- What the array says of a page: its address and the bits of its entry.
abbrev pub description : ℕ → ℕ → PtEntry
description i w = record {
  pdx_of = i / 2 ^ 22 % 2 ^ 10;
  ptx_of = i / 2 ^ 12 % 2 ^ 10;
  ppage = w / 2 ^ 12;
  present = w / 2 ^ 0 % 2 == 1;
  writable = w / 2 ^ 1 % 2 == 1;
  user = w / 2 ^ 2 % 2 == 1;
  encrypted = w / 2 ^ 9 % 2 == 1;
  ref = w / 2 ^ 5 % 2 == 1;
}

-- A page is left out if its entry is 0, or if only the working set is asked for and the address is
-- in no slot.
abbrev pub selected_page : Bool → ℕ → Machine → List PtEntry
selected_page wset_only i m =
    let w = or_zero (load_pte i m) in
    if w == 0 then [] else if wset_only && not (queued 8 0 i m) then [] else description i w ∷ []

-- All pages from page `k` down that are asked for.
abbrev pub selected : Bool → ℕ → Machine → List PtEntry
selected wset_only zero m = selected_page wset_only 0 m
selected wset_only (suc k) m = selected_page wset_only (suc k * pgsize) m ++ selected wset_only k m

flags : (i w : ℕ) → pt_entry i w ≡ description i w
flags i w = refl

-- Page tables exist for the pages from page `k` down.
abbrev pub MappedBelow : ℕ → Machine → Type 0
MappedBelow zero m = Mapped m 0
MappedBelow (suc k) m = Mapped m (suc k * pgsize) × MappedBelow k m
