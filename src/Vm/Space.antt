-- ===== src/Vm/Space.antt =====
-- The address space of a process in p6/vm.c: `walkpgdir`, `mappages`, `allocuvm`, `deallocuvm` and
-- `clearpteu`, with `kalloc` and `kfree` of p6/kalloc.c. A page is given by its number: its address
-- is 4096 times the number, its PDX and PTX are quotient and remainder by 1024. Sizes are at most
-- KERNBASE, so that no address wraps around. The bytes of the free list's links are left out.
pub mod Entry
pub mod FreePage
pub mod Dealloc
pub mod Alloc
pub mod Grow
pub mod Fork
mod Tests
use cs537_spring.Prelude.{
  ℕ, zero, suc, ◌+◌, ◌-◌, ◌*◌, ◌/◌, ◌%◌, Bool, true, false, ◌||◌, not, ltb, leb, Option, none, some,
  List, [], ◌∷◌, update, ◌==◌, if◌then◌else◌,
}
use cs537_spring.Vm.Word.{has, clear_flag, set_flag, pte_p, pte_w, pte_u, pte_e, pte_page, pgsize}
use cs537_spring.Vm.Crypt.{kernbase}

-- The page directory with its page tables and their frames, the physical memory, the free list, and
-- the first frame behind the kernel (`end`, which the linker sets).
pub record Space : Type 0 where
  pub dir : ℕ → Option (ℕ → ℕ)
  pub tables : ℕ → ℕ
  pub mem : ℕ → ℕ → ℕ
  pub free : List ℕ
  pub first : ℕ

pub data Result (A : Type 0) : Type 0 where
  ok : A → Space → Result A
  panic : Result A

abbrev pub Command : Type 0 → Type 0
Command A = Space → Result A

module _ {A B : Type 0} where
  abbrev pub and_then : Result A → (A → Command B) → Result B
  and_then (ok a s) f = f a s
  and_then panic f = panic

-- Total correctness of a command.
abbrev pub Returns : {A : Type 0} → (A → Space → Type 0) → Result A → Type 0
Returns P (ok a s) = P a s
Returns P panic = ⊥

-- PHYSTOP as a frame number.
abbrev pub phystop : ℕ
phystop = 0xe000

abbrev pub fill : ℕ → ℕ → Space → Space
fill f b s = record s { mem = update s.mem f (λ j. b) }

-- `kalloc`: the first frame of the free list.
abbrev pub kalloc_from : Space → List ℕ → Result (Option ℕ)
kalloc_from s [] = ok none s
kalloc_from s (f ∷ fs) = ok (some f) (record s { free = fs })

abbrev pub kalloc : Command (Option ℕ)
kalloc s = kalloc_from s s.free

-- `kfree`: the frame is filled with junk.
abbrev pub kfree : ℕ → Command (Unit {0})
kfree f s =
    if ltb f s.first || leb phystop f
    then panic
    else ok tt (record (fill f 1 s) { free = f ∷ s.free })

-- The page table entry of a page, where its page table exists, and a write to it.
unfoldable pub entry : ℕ → Space → Option ℕ
entry k s = elim (s.dir (k / 1024)) [ none ↦ none | some table ↦ some (table (k % 1024)) ]

unfoldable pub set_entry : ℕ → ℕ → Space → Space
set_entry k w s = elim (s.dir (k / 1024)) [
  | none ↦ s
  | some table ↦ record s { dir = update s.dir (k / 1024) (some (update table (k % 1024) w)) }
]

-- `walkpgdir(pgdir, va, 1)`, up to the entry: a missing page table is allocated, with zeros. The
-- result says whether the table is there.
abbrev pub new_table : ℕ → Option ℕ → Command Bool
new_table k none s = ok false s
new_table k (some f) s = ok true (record (fill f 0 s) {
  dir = update s.dir (k / 1024) (some (λ i. 0));
  tables = update s.tables (k / 1024) f;
})

abbrev pub walk_from : ℕ → Space → Option (ℕ → ℕ) → Result Bool
walk_from k s (some table) = ok true s
walk_from k s none = and_then (kalloc s) (new_table k)

unfoldable pub walk : ℕ → Command Bool
walk k s = walk_from k s (s.dir (k / 1024))

-- `*pte & (PTE_P | PTE_E)`.
abbrev pub in_use : ℕ → Bool
in_use w = has pte_p w || has pte_e w

abbrev pub is_used : Option ℕ → Bool
is_used none = false
is_used (some w) = in_use w

-- PTE_W | PTE_U, and the entry that `mappages` writes for a frame and flags.
abbrev pub perm_user : ℕ
perm_user = 6

unfoldable pub new_entry : ℕ → ℕ → ℕ
new_entry f perm =
    let w = f * 4096 + perm in
    if has pte_e perm then clear_flag pte_p (set_flag pte_e w) else set_flag pte_p w

-- `mappages` for one page and the frame `f`. The result is false where the code gives -1.
unfoldable pub map_page : ℕ → ℕ → ℕ → Command Bool
unfolding new_entry
map_page k f perm s = and_then (walk k s) λ there s₁.
    if not there
    then ok false s₁
    else if is_used (entry k s₁)
    then panic
    else ok true (set_entry k (new_entry f perm) s₁)

-- The body of the loop of `deallocuvm` at a page with a page table.
unfoldable pub free_page : ℕ → ℕ → Command (Unit {0})
free_page k w s =
    if in_use w
    then if pte_page w == 0
      then panic
      else and_then (kfree (pte_page w) s) (λ _ s₁. ok tt (set_entry k 0 s₁))
    else ok tt s

-- The first page after those of the page table of page `k`.
abbrev pub next_table : ℕ → ℕ
next_table k = (k / 1024 + 1) * 1024

abbrev pub free_at : (ℕ → Command (Unit {0})) → ℕ → Option ℕ → Command (Unit {0})
free_at rest k none s = rest (next_table k) s
free_at rest k (some w) s = and_then (free_page k w s) (λ _ s₁. rest (k + 1) s₁)

-- The loop of `deallocuvm` from page `k` on, for at most `n` rounds.
unfoldable pub free_from : ℕ → ℕ → ℕ → Command (Unit {0})
free_from zero oldsz k s = ok tt s
free_from (suc n) oldsz k s =
    if ltb (k * pgsize) oldsz then free_at (free_from n oldsz) k (entry k s) s else ok tt s

-- PGROUNDUP, as a page number.
abbrev pub round_up : ℕ → ℕ
round_up sz = (sz + 4095) / 4096

-- `deallocuvm`: a round for each page is enough.
unfoldable pub deallocuvm : ℕ → ℕ → Command ℕ
deallocuvm oldsz newsz s =
    if leb oldsz newsz
    then ok oldsz s
    else and_then (free_from (round_up oldsz) oldsz (round_up newsz) s) (λ _ s₁. ok newsz s₁)

-- The two ways in which `allocuvm` fails.
abbrev pub undo : ℕ → ℕ → Command ℕ
undo oldsz newsz s = and_then (deallocuvm newsz oldsz s) (λ _ s₁. ok 0 s₁)

abbrev pub undo_free : ℕ → ℕ → ℕ → Command ℕ
undo_free oldsz newsz f s =
    and_then (deallocuvm newsz oldsz s) λ _ s₁. and_then (kfree f s₁) (λ _ s₂. ok 0 s₂)

-- A round of the loop of `allocuvm` at page `k`, with the frame that `kalloc` gives.
abbrev pub alloc_at : Command ℕ → ℕ → ℕ → ℕ → Option ℕ → Command ℕ
alloc_at rest oldsz newsz k none s = undo oldsz newsz s
alloc_at rest oldsz newsz k (some f) s =
    and_then (map_page k f perm_user (fill f 0 s))
      λ mapped s₁. if mapped then rest s₁ else undo_free oldsz newsz f s₁

unfoldable pub alloc_from : ℕ → ℕ → ℕ → ℕ → Command ℕ
alloc_from zero oldsz newsz k s = ok newsz s
alloc_from (suc n) oldsz newsz k s =
    if ltb (k * pgsize) newsz
    then and_then (kalloc s) (alloc_at (alloc_from n oldsz newsz (k + 1)) oldsz newsz k)
    else ok newsz s

-- `allocuvm`.
unfoldable pub allocuvm : ℕ → ℕ → Command ℕ
allocuvm oldsz newsz s =
    if leb kernbase newsz
    then ok 0 s
    else if ltb newsz oldsz
    then ok oldsz s
    else alloc_from (round_up newsz) oldsz newsz (round_up oldsz) s

-- `clearpteu`, for the page below a user's stack.
abbrev pub clear_user : ℕ → Space → Option ℕ → Result (Unit {0})
clear_user k s none = panic
clear_user k s (some w) = ok tt (set_entry k (clear_flag pte_u w) s)

unfoldable pub clearpteu : ℕ → Command (Unit {0})
clearpteu k s = clear_user k s (entry k s)

pub Returns-bind :
    {A B : Type 0} (P : A → Space → Type 0) (Q : B → Space → Type 0) (r : Result A)
    (f : A → Command B)
    → Returns P r
    → ((a : A) (s : Space) → P a s → Returns Q (f a s))
    → Returns Q (and_then r f)
Returns-bind P Q (ok a s) f h next = next a s h
Returns-bind P Q panic f h next = absurd h

pub Returns-mono :
    {A : Type 0} (P Q : A → Space → Type 0) (r : Result A)
    → Returns P r
    → ((a : A) (s : Space) → P a s → Q a s)
    → Returns Q r
Returns-mono P Q (ok a s) h weaken = weaken a s h
Returns-mono P Q panic h weaken = absurd h
