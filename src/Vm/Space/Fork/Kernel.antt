-- ===== src/Vm/Space/Fork/Kernel.antt =====
-- `setupkvm` of p6/vm.c.
use cs537_spring.Prelude.{
  ℕ, ◌+◌, ◌-◌, ◌/◌, ◌%◌, ◌≡◌, ◌≤◌, ◌<◌, refl, arith, ap, sym, ◌∙◌, subst, Bool, true, false, ◌&&◌,
  ltb, leb, none, some, List, length, [], ◌∷◌, if◌then◌else◌, Bool-cases, inl, inr,
}
use cs537_spring.Vm.Word.{pte_w}
use cs537_spring.Vm.Crypt.{kernbase}
use cs537_spring.Vm.Space.{
  Space, Returns, Returns-bind, Returns-mono, phystop, entry, in_use, new_entry, round_up,
}
use cs537_spring.Vm.Space.Entry.{visible, GoodFrame}
use cs537_spring.Vm.Space.Dealloc.{Owned}
use cs537_spring.Vm.Space.Fork.{
  kernpage, kernlink, extmem, devspace, Kmap, kmaps, kmap_pages, map_pages, give_up, map_kernel,
}
use cs537_spring.Vm.Space.Fork.Keep.{GoodFrame-move, Keep-refl}
use cs537_spring.Vm.Space.Fork.Free.{give_up-none}
use cs537_spring.Vm.Space.Fork.Copied.{Fresh}
use cs537_spring.Vm.Space.Fork.Pages.{Range, map_pages-Range}
use cs537_spring.Vm.Space.Fork.Mapping.{
  glue_devices, glue_data, glue_text, used_plain, UpTo-step, glue_io, used_writable, kernel_entry,
  user_none, UpTo, KernelEnd,
}

-- What follows the first entries of `kmap`.
abbrev devices : List Kmap
devices = record { virt = devspace; phys_start = devspace; phys_end = 0; perm = pte_w } ∷ []

abbrev behind_text : ℕ → List Kmap
behind_text data_page =
    record { virt = data_page; phys_start = data_page - kernpage; phys_end = phystop; perm = pte_w }
    ∷ devices

abbrev behind_io : ℕ → List Kmap
behind_io data_page =
    record {
      virt = kernlink;
      phys_start = kernlink - kernpage;
      phys_end = data_page - kernpage;
      perm = 0;
    }
    ∷ behind_text data_page

module _ (data_page d : ℕ) (s : Space) (h : Fresh s) (pos : 0 < s.first)
    (frame : GoodFrame s d) where
  give_up-Range :
      (k virt f perm n : ℕ) (s₁ s₂ : Space)
      → kernpage ≤ virt
      → UpTo data_page d k s s₁
      → Range 1 perm virt f n false s₁ s₂
      → length s.free ≤ 69
      → Returns (λ r s'. KernelEnd data_page d s r s') (give_up d s₂)
  give_up-Range k virt f perm n s₁ s₂ lo u r short =
      Returns-mono _ _ (give_up d s₂)
        (give_up-none d s₂ (subst (λ n. 0 < n) (sym (r.first ∙ u.first)) pos) r.free
          (r.keep.tables u.free (u.keep.tables h.free h.tables))
          (GoodFrame-move s s₂ d (r.first ∙ u.first) frame) own)
        λ _ s' e. inr (e, short)
    where
      none_some : (a : ℕ) → none ≡ some a → ⊥
      none_some a q = cc

      own : Owned 0 (round_up kernbase) s₂
      own j w l m at = absurd (
          none_some w (
            sym (r.below j (omega arith) ∙ u.mapping j ∙ user_none data_page k j (omega arith))
            ∙ at))

  -- One entry of `kmap`.
  map_kernel-step :
      (b b' k k' virt f end perm n : ℕ) (ks : List Kmap) (s₁ : Space)
      → kmap_pages (record { virt = virt; phys_start = f; phys_end = end; perm = perm }) ≡ n
      → kernpage ≤ virt
      → k ≤ virt
      → ((g : ℕ) → in_use (new_entry g perm) ≡ true)
      → UpTo data_page d k s s₁
      → length s.free ≤ length s₁.free + b
      → b + (virt % 1024 + n) / 1024 + 1 ≤ b'
      → b' ≤ 69
      → ((j : ℕ)
          → (if leb virt j && ltb j (virt + n)
              then some (new_entry (f + (j - virt)) perm)
              else if ltb j k
              then kernel_entry data_page j
              else none)
            ≡ (if ltb j k' then kernel_entry data_page j else none))
      → ((s₂ : Space)
          → UpTo data_page d k' s s₂
          → length s.free ≤ length s₂.free + b'
          → Returns (λ r s'. KernelEnd data_page d s r s') (map_kernel ks d s₂))
      → Returns
          (λ r s'. KernelEnd data_page d s r s')
          (map_kernel
            (record { virt = virt; phys_start = f; phys_end = end; perm = perm } ∷ ks)
            d
            s₁)
  unfolding map_kernel
  map_kernel-step b b' k k' virt f end perm n ks s₁ e lo le used u p cost top glue ih =
      Returns-bind (λ ok s₂. Range 1 perm virt f n ok s₁ s₂) _ _ _
        (subst (λ x. Returns (λ ok s₂. Range 1 perm virt f n ok s₁ s₂) (map_pages x virt f perm s₁))
          (sym e)
          (map_pages-Range n 1 perm virt f s₁ used (inl refl) u.free
            λ j l m. u.mapping j ∙ above j l))
        λ ok s₂ r. mapped ok s₂ r
    where
      above : (j : ℕ) → virt ≤ j → (if ltb j k then kernel_entry data_page j else none) ≡ none
      above j l = ground arith

      mapped :
          (ok : Bool) (s₂ : Space)
          → Range 1 perm virt f n ok s₁ s₂
          → Returns
              (λ r s'. KernelEnd data_page d s r s')
              (if ok then map_kernel ks d s₂ else give_up d s₂)
      mapped true s₂ r =
          ih s₂ (UpTo-step data_page d k k' virt f perm n s s₁ s₂ u r glue)
            (omega (arith, p, cost, r.spent))
      mapped false s₂ r =
          give_up-Range k virt f perm n s₁ s₂ lo u r (omega (arith, p, cost, r.spent))

  UpTo-start : ((j : ℕ) → visible (entry j s) ≡ none) → UpTo data_page d kernpage s s
  UpTo-start empty = record {
    mapping = λ j. empty j ∙ sym (nothing j);
    keep = Keep-refl s;
    first = refl;
    free = h.free;
  }
    where
      nothing : (j : ℕ) → (if ltb j kernpage then kernel_entry data_page j else none) ≡ none
      nothing j = elim (Bool-cases (ltb j kernpage)) [
        | inl t ↦ rw t (
            sym (ap (λ b. if b then kernel_entry data_page j else none) t)
            ∙ user_none data_page kernpage j (ground arith))
        | inr t ↦ rw t refl
      ]

  pub map_kernel-KernelEnd :
      kernlink < data_page
      → data_page < kernpage + phystop
      → ((j : ℕ) → visible (entry j s) ≡ none)
      → Returns (λ r s'. KernelEnd data_page d s r s') (map_kernel (kmaps data_page) d s)
  unfolding map_kernel
  map_kernel-KernelEnd lo hi empty =
      map_kernel-step 0 1 kernpage kernlink kernpage 0 extmem pte_w 0x100 (behind_io data_page) s
        refl (omega arith) (omega arith) used_writable (UpTo-start empty) (omega arith)
        (omega arith) (omega arith) (glue_io data_page lo hi)
        λ s₁ u₁ p₁.
          map_kernel-step 1 (2 + (data_page - kernpage) / 1024) kernlink data_page kernlink 0x100
            (data_page - kernpage) 0 (data_page - kernlink) (behind_text data_page) s₁ (omega arith)
            (omega arith) (omega arith) used_plain u₁ p₁ (omega arith) (omega arith)
            (glue_text data_page lo hi)
            λ s₂ u₂ p₂.
              map_kernel-step (2 + (data_page - kernpage) / 1024) 60 data_page devspace data_page
                (data_page - kernpage) phystop pte_w (kernpage + phystop - data_page) devices s₂
                (omega arith) (omega arith) (omega arith) used_writable u₂ p₂ (omega arith)
                (omega arith) (glue_data data_page lo hi)
                λ s₃ u₃ p₃.
                  map_kernel-step 60 69 devspace 0x10_0000 devspace devspace 0 pte_w 0x2000 [] s₃
                    refl (omega arith) (omega arith) used_writable u₃ p₃ (omega arith) (omega arith)
                    (glue_devices data_page lo hi) λ s₄ u₄ p₄. inl (refl, (u₄, p₄))
