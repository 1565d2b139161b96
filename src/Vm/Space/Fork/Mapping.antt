-- ===== src/Vm/Space/Fork/Mapping.antt =====
-- The array `kmap` of p6/vm.c, as the entries that it describes.
use cs537_spring.Prelude.{
  ℕ, ◌+◌, ◌-◌, ◌≡◌, ◌≤◌, ◌<◌, ◌⊎◌, refl, arith, ap, ◌∙◌, true, ◌&&◌, ◌||◌, ltb, leb, Option, none,
  some, length, if◌then◌else◌,
}
use cs537_spring.Vm.Word.{pte_w}
use cs537_spring.Vm.Space.{Space, phystop, entry, in_use, new_entry}
use cs537_spring.Vm.Space.Entry.{visible, GoodFree}
use cs537_spring.Vm.Space.Fork.{kernpage, kernlink, devspace}
use cs537_spring.Vm.Space.Fork.Keep.{Keep, Keep-trans}
use cs537_spring.Vm.Space.Fork.Pages.{Range}

pub used_writable : (g : ℕ) → in_use (new_entry g pte_w) ≡ true
unfolding new_entry
used_writable g = ground arith

pub used_plain : (g : ℕ) → in_use (new_entry g 0) ≡ true
unfolding new_entry
used_plain g = ground arith

-- The entry that the kernel has for a page, where the linker's `data` is the page `data_page`.
unfoldable pub kernel_entry : ℕ → ℕ → Option ℕ
kernel_entry data_page j =
    if ltb j kernpage
    then none
    else if ltb j kernlink || (leb data_page j && ltb j (kernpage + phystop))
    then some (new_entry (j - kernpage) pte_w)
    else if ltb j data_page
    then some (new_entry (j - kernpage) 0)
    else if leb devspace j && ltb j 0x10_0000
    then some (new_entry j pte_w)
    else none

-- How far the directory in the frame `d` is set up, for the pages below `k`.
pub record UpTo (data_page d k : ℕ) (s s' : Space) : Type 0 where
  pub mapping :
      (j : ℕ) → visible (entry j s') ≡ (if ltb j k then kernel_entry data_page j else none)
  pub keep : Keep s s'
  pub first : s'.first ≡ s.first
  pub free : GoodFree s'

-- The next range of pages.
pub UpTo-step :
    (data_page d k k' virt f perm n : ℕ) (s s₁ s₂ : Space)
    → UpTo data_page d k s s₁
    → Range 1 perm virt f n true s₁ s₂
    → ((j : ℕ)
        → (if leb virt j && ltb j (virt + n)
            then some (new_entry (f + (j - virt)) perm)
            else if ltb j k
            then kernel_entry data_page j
            else none)
          ≡ (if ltb j k' then kernel_entry data_page j else none))
    → UpTo data_page d k' s s₂
UpTo-step data_page d k k' virt f perm n s s₁ s₂ h r glue = record {
  mapping = λ j.
      r.mapping refl j
      ∙ ap
          (λ o.
            if leb virt j && ltb j (virt + n) then some (new_entry (f + (j - virt)) perm) else o)
          (h.mapping j)
      ∙ glue j;
  keep = Keep-trans s s₁ s₂ h.keep r.keep;
  first = r.first ∙ h.first;
  free = r.free;
}

module _ (data_page : ℕ) (lo : kernlink < data_page) (hi : data_page < kernpage + phystop) where
  pub glue_io :
      (j : ℕ)
      → (if leb kernpage j && ltb j (kernpage + 0x100)
          then some (new_entry (0 + (j - kernpage)) pte_w)
          else if ltb j kernpage
          then kernel_entry data_page j
          else none)
        ≡ (if ltb j kernlink then kernel_entry data_page j else none)
  unfolding kernel_entry
  glue_io j = ground arith

  pub glue_text :
      (j : ℕ)
      → (if leb kernlink j && ltb j (kernlink + (data_page - kernlink))
          then some (new_entry (0x100 + (j - kernlink)) 0)
          else if ltb j kernlink
          then kernel_entry data_page j
          else none)
        ≡ (if ltb j data_page then kernel_entry data_page j else none)
  unfolding kernel_entry
  glue_text j = ground arith

  pub glue_data :
      (j : ℕ)
      → (if leb data_page j && ltb j (data_page + (kernpage + phystop - data_page))
          then some (new_entry (data_page - kernpage + (j - data_page)) pte_w)
          else if ltb j data_page
          then kernel_entry data_page j
          else none)
        ≡ (if ltb j devspace then kernel_entry data_page j else none)
  unfolding kernel_entry
  glue_data j = ground arith

  pub glue_devices :
      (j : ℕ)
      → (if leb devspace j && ltb j (devspace + 0x2000)
          then some (new_entry (devspace + (j - devspace)) pte_w)
          else if ltb j devspace
          then kernel_entry data_page j
          else none)
        ≡ (if ltb j 0x10_0000 then kernel_entry data_page j else none)
  unfolding kernel_entry
  glue_devices j = ground arith

-- The whole of the kernel's mappings, or too few frames.
abbrev pub KernelEnd : ℕ → ℕ → Space → Option ℕ → Space → Type 0
KernelEnd data_page d s r s' =
    ((r ≡ some d) × (UpTo data_page d 0x10_0000 s s' × (length s.free ≤ length s'.free + 69)))
    ⊎ ((r ≡ none) × (length s.free ≤ 69))

pub user_none :
    (data_page k j : ℕ) → j < kernpage → (if ltb j k then kernel_entry data_page j else none) ≡ none
unfolding kernel_entry
user_none data_page k j l = ground arith
