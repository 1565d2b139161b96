-- ===== src/Vm/Space/Fork.antt =====
-- The address space of a new process in p6/vm.c: `setupkvm`, `copyuvm` and `freevm`. From
-- `setupkvm` on, the directory of the state is the new one; that of the parent is an argument.
pub mod Keep
pub mod Free
pub mod Copied
pub mod Loop
pub mod Pages
pub mod Mapping
pub mod Kernel
pub mod Child
use cs537_spring.Prelude.{
  ℕ, zero, suc, ◌+◌, ◌-◌, ◌*◌, ◌%◌, ◌/◌, Bool, true, false, not, ltb, Option, none, some, List, [],
  ◌∷◌, update, if◌then◌else◌,
}
use cs537_spring.Vm.Word.{pte_w, pte_page, pgsize}
use cs537_spring.Vm.Crypt.{kernbase}
use cs537_spring.Vm.Space.{
  Space, Result, ok, panic, Command, and_then, phystop, fill, kalloc, kfree, entry, in_use,
  map_page, round_up, deallocuvm,
}

-- A page directory, as a function.
abbrev pub Directory : Type 0
Directory = ℕ → Option (ℕ → ℕ)

-- The entry that `walkpgdir` without allocation finds.
unfoldable pub lookup : Directory → ℕ → Option ℕ
lookup pgdir k = elim (pgdir (k / 1024)) [ none ↦ none | some table ↦ some (table (k % 1024)) ]

-- NPDENTRIES
abbrev pub npdentries : ℕ
npdentries = 1024

-- The loop of `freevm` over the page tables, for `n` directory entries from `i` on.
abbrev pub free_table : ℕ → Option (ℕ → ℕ) → Command (Unit {0})
free_table i none s = ok tt s
free_table i (some table) s = kfree (s.tables i) s

unfoldable pub free_tables : ℕ → ℕ → Command (Unit {0})
free_tables zero i s = ok tt s
free_tables (suc n) i s = and_then (free_table i (s.dir i) s) (λ _ s₁. free_tables n (i + 1) s₁)

-- `freevm` of the directory in the frame `d`.
unfoldable pub freevm : ℕ → Command (Unit {0})
freevm d s =
    and_then (deallocuvm kernbase 0 s)
      λ _ s₁. and_then (free_tables npdentries 0 s₁) (λ _ s₂. kfree d s₂)

-- `mappages` for several pages and the frames from `f` on.
unfoldable pub map_pages : ℕ → ℕ → ℕ → ℕ → Command Bool
map_pages zero k f perm s = ok true s
map_pages (suc n) k f perm s =
    and_then (map_page k f perm s)
      λ mapped s₁. if mapped then map_pages n (k + 1) (f + 1) perm s₁ else ok false s₁

-- EXTMEM, KERNBASE, KERNLINK and DEVSPACE as numbers of pages.
abbrev pub extmem : ℕ
extmem = 0x100

abbrev pub kernpage : ℕ
kernpage = 0x8_0000

abbrev pub kernlink : ℕ
kernlink = 0x8_0100

abbrev pub devspace : ℕ
devspace = 0xf_e000

-- An entry of the array `kmap`: the pages from `virt` on, for the frames from `phys_start` up to
-- `phys_end`, which is 0 where the address space ends.
pub record Kmap : Type 0 where
  pub virt : ℕ
  pub phys_start : ℕ
  pub phys_end : ℕ
  pub perm : ℕ

-- `kmap`, where the linker's symbol `data` is the address of the page `data`.
abbrev pub kmaps : ℕ → List Kmap
kmaps data_page =
    record { virt = kernpage; phys_start = 0; phys_end = extmem; perm = pte_w }
    ∷ record {
      virt = kernlink;
      phys_start = kernlink - kernpage;
      phys_end = data_page - kernpage;
      perm = 0;
    }
    ∷ record {
      virt = data_page;
      phys_start = data_page - kernpage;
      phys_end = phystop;
      perm = pte_w;
    }
    ∷ record { virt = devspace; phys_start = devspace; phys_end = 0; perm = pte_w }
    ∷ []

-- `k->phys_end - k->phys_start`, which wraps around for the devices.
abbrev pub kmap_pages : Kmap → ℕ
kmap_pages k = (k.phys_end + 0x10_0000 - k.phys_start) % 0x10_0000

-- The result of the functions below is the frame of the new directory, or none for 0.
abbrev pub give_up : ℕ → Command (Option ℕ)
give_up d s = and_then (freevm d s) (λ _ s₁. ok none s₁)

unfoldable pub map_kernel : List Kmap → ℕ → Command (Option ℕ)
map_kernel [] d s = ok (some d) s
map_kernel (k ∷ ks) d s =
    and_then (map_pages (kmap_pages k) k.virt k.phys_start k.perm s)
      λ mapped s₁. if mapped then map_kernel ks d s₁ else give_up d s₁

abbrev pub setup_at : ℕ → Option ℕ → Command (Option ℕ)
setup_at data_page none s = ok none s
setup_at data_page (some d) s =
    if ltb devspace (phystop + kernpage)
    then panic
    else map_kernel (kmaps data_page) d (record (fill d 0 s) { dir = λ i. none })

-- `setupkvm`
unfoldable pub setupkvm : ℕ → Command (Option ℕ)
setupkvm data_page s = and_then (kalloc s) (setup_at data_page)

-- `memmove(mem, P2V(pa), PGSIZE)`
abbrev pub copy_page : ℕ → ℕ → Space → Space
copy_page f g s = record s { mem = update s.mem f (s.mem g) }

-- A round of the loop of `copyuvm` at page `k` with the entry `w`, in the frame that `kalloc` gives.
abbrev pub copy_into : Command (Option ℕ) → ℕ → ℕ → ℕ → Option ℕ → Command (Option ℕ)
copy_into rest d k w none s = give_up d s
copy_into rest d k w (some f) s =
    and_then (map_page k f (w % 4096) (copy_page f (pte_page w) s))
      λ mapped s₁. if mapped then rest s₁ else and_then (kfree f s₁) (λ _ s₂. give_up d s₂)

abbrev pub copy_entry : Command (Option ℕ) → ℕ → ℕ → Option ℕ → Command (Option ℕ)
copy_entry rest d k none s = panic
copy_entry rest d k (some w) s =
    if not (in_use w) then panic else and_then (kalloc s) (copy_into rest d k w)

-- The loop from page `k` on, for at most `n` rounds.
unfoldable pub copy_pages : Directory → ℕ → ℕ → ℕ → ℕ → Command (Option ℕ)
copy_pages pgdir sz d zero k s = ok (some d) s
copy_pages pgdir sz d (suc n) k s =
    if ltb (k * pgsize) sz
    then copy_entry (copy_pages pgdir sz d n (k + 1)) d k (lookup pgdir k) s
    else ok (some d) s

abbrev pub copy_all : Directory → ℕ → Option ℕ → Command (Option ℕ)
copy_all pgdir sz none s = ok none s
copy_all pgdir sz (some d) s = copy_pages pgdir sz d (round_up sz) 0 s

-- `copyuvm`: a round for each page is enough.
unfoldable pub copyuvm : ℕ → Directory → ℕ → Command (Option ℕ)
copyuvm data_page pgdir sz s = and_then (setupkvm data_page s) (copy_all pgdir sz)
