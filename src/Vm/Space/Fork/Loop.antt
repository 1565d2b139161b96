-- ===== src/Vm/Space/Fork/Loop.antt =====
-- The loop of `copyuvm` of p6/vm.c, with its two ways to fail.
use cs537_spring.Prelude.{
  ℕ, zero, suc, ◌+◌, ◌*◌, ◌%◌, ◌≡◌, ◌≤◌, ◌<◌, ◌⊎◌, refl, arith, ap, sym, ◌∙◌, subst, Bool, true,
  false, ltb, ltb→lt, Option, none, some, List, All, length, [], ◌∷◌, if◌then◌else◌, Bool-cases,
  inl, inr,
}
use cs537_spring.Vm.Word.{pte_page, pgsize}
use cs537_spring.Vm.Crypt.{kernbase}
use cs537_spring.Vm.Space.{
  Result, Space, Returns, Returns-bind, Returns-mono, and_then, kalloc_from, kfree, entry, in_use,
  map_page, round_up, new_entry,
}
use cs537_spring.Vm.Space.Entry.{visible, GoodFrame}
use cs537_spring.Vm.Space.FreePage.{GoodFree-push}
use cs537_spring.Vm.Space.Dealloc.{Owned}
use cs537_spring.Vm.Space.Alloc.{MapStep, map_page-MapStep}
use cs537_spring.Vm.Space.Fork.{Directory, lookup, give_up, copy_into, copy_pages, copy_all}
use cs537_spring.Vm.Space.Fork.Keep.{Keep, GoodFrame-move, map_page-Keep, Returns-and, Out}
use cs537_spring.Vm.Space.Fork.Free.{give_up-none, kfree-GoodFrame, freed}
use cs537_spring.Vm.Space.Fork.Copied.{
  some_inj, Parent, Copied, Fresh, Copied-start, Copied-step, filled, entry-filled, Keep-filled,
  in_use-new_entry, pte_page-new_entry,
}

-- All `n` pages are copied, or there were fewer than two frames for each.
abbrev pub CopyEnd : Directory → ℕ → ℕ → Space → Option ℕ → Space → Type 0
CopyEnd pgdir n d s r s' =
    ((r ≡ some d) × Copied pgdir n s s') ⊎ ((r ≡ none) × (length s.free < 2 * n))

entry-freed : (j f : ℕ) (s : Space) → entry j (freed f s) ≡ entry j s
unfolding entry
entry-freed j f s = refl

module _ (pgdir : Directory) (sz d : ℕ) (s : Space) (h : Fresh s) (pos : 0 < s.first)
    (frame : GoodFrame s d) (small : round_up sz ≤ round_up kernbase)
    (parent : Parent pgdir (round_up sz) s) where
  Copied-Owned :
      (k : ℕ) (s₁ : Space) → k ≤ round_up sz → Copied pgdir k s s₁ → Owned 0 (round_up kernbase) s₁
  Copied-Owned k s₁ l c j w lo hi at = elim (Bool-cases (ltb j k)) [
    | inl t ↦
        let lt = ltb→lt j k t in
        let (u, found, used, o) = parent j (omega arith) in
        let p = c.pages j u lt found in
        subst (GoodFrame s₁)
          (sym (
            ap pte_page (some_inj w (new_entry p.frame (u % 4096)) (sym at ∙ p.mapped))
            ∙ pte_page-new_entry p.frame u))
          p.good
    | inr t ↦ absurd (none_some w (sym (c.others j (ground arith) ∙ h.empty j hi) ∙ at))
  ]
    where
      none_some : (a : ℕ) → none ≡ some a → ⊥
      none_some a q = cc

  -- The first way to fail: there is no frame.
  give_up-Copied :
      (k : ℕ) (s₁ : Space)
      → k < round_up sz
      → Copied pgdir k s s₁
      → length s.free < 2 * round_up sz
      → Returns (λ r s'. CopyEnd pgdir (round_up sz) d s r s') (give_up d s₁)
  give_up-Copied k s₁ l c short =
      Returns-mono _ _ (give_up d s₁)
        (give_up-none d s₁ (subst (λ n. 0 < n) (sym c.first) pos) c.free
          (c.keep.tables h.free h.tables) (GoodFrame-move s s₁ d c.first frame)
          (Copied-Owned k s₁ (omega arith) c))
        λ r s' e. inr (e, short)

  -- The second: there is no page table.
  give_up-unmapped :
      (k f w : ℕ) (fs : List ℕ) (s₁ s₂ : Space)
      → k < round_up sz
      → Copied pgdir k s s₁
      → s₁.free ≡ f ∷ fs
      → MapStep (w % 4096) k f false (filled f fs w s₁) s₂
      → Keep (filled f fs w s₁) s₂
      → length s.free < 2 * round_up sz
      → Returns
          (λ r s'. CopyEnd pgdir (round_up sz) d s r s')
          (and_then (kfree f s₂) (λ _ s₃. give_up d s₃))
  give_up-unmapped k f w fs s₁ s₂ l c e m q short =
      subst
        (λ r.
          Returns (λ r s'. CopyEnd pgdir (round_up sz) d s r s')
            (and_then r (λ _ s₃. give_up d s₃)))
        (sym (kfree-GoodFrame f s₂ good))
        (Returns-mono _ _ (give_up d (freed f s₂))
          (give_up-none d (freed f s₂) (subst (λ n. 0 < n) (sym (m.first ∙ c.first)) pos)
            (GoodFree-push s₂ (freed f s₂) f refl refl good m.free)
            ((Keep-filled f w fs s₁ s₂ e q).tables c.free (c.keep.tables h.free h.tables))
            (GoodFrame-move s (freed f s₂) d (m.first ∙ c.first) frame) own)
          λ r s' x. inr (x, short))
    where
      good : GoodFrame s₂ f
      good = GoodFrame-move s₁ s₂ f m.first (subst (All (GoodFrame s₁)) e c.free).0

      own : Owned 0 (round_up kernbase) (freed f s₂)
      own j v lo hi at = GoodFrame-move s₁ (freed f s₂) (pte_page v) m.first (
          Copied-Owned k s₁ (omega arith) c j v lo hi (
            sym (m.mapping j ∙ ap visible (entry-filled j f w fs s₁))
            ∙ sym (ap visible (entry-freed j f s₂))
            ∙ at))

  Copied-end :
      (k : ℕ) (s₁ : Space)
      → k ≡ round_up sz
      → Copied pgdir k s s₁
      → CopyEnd pgdir (round_up sz) d s (some d) s₁
  Copied-end k s₁ e c = inl (refl, subst (λ j. Copied pgdir j s s₁) e c)

  -- A round at a page of the parent.
  copy_entry-CopyEnd :
      (k w : ℕ) (s₁ : Space) (rest : Space → Result (Option ℕ)) (fs : List ℕ)
      → k < round_up sz
      → Copied pgdir k s s₁
      → length s.free ≤ length s₁.free + 2 * k
      → lookup pgdir k ≡ some w
      → in_use w ≡ true
      → Out (pte_page w) s.free
      → s₁.free ≡ fs
      → ((s₂ : Space)
          → Copied pgdir (k + 1) s s₂
          → length s.free ≤ length s₂.free + 2 * (k + 1)
          → Returns (λ r s'. CopyEnd pgdir (round_up sz) d s r s') (rest s₂))
      → Returns
          (λ r s'. CopyEnd pgdir (round_up sz) d s r s')
          (and_then (kalloc_from s₁ fs) (copy_into rest d k w))
  copy_entry-CopyEnd k w s₁ rest [] l c p found used src e ih =
      give_up-Copied k s₁ l c (omega (arith, p, ap length e))
  copy_entry-CopyEnd k w s₁ rest (f ∷ fs) l c p found used src e ih =
      Returns-bind
        (λ b s₂. MapStep (w % 4096) k f b (filled f fs w s₁) s₂ × Keep (filled f fs w s₁) s₂) _
        (map_page k f (w % 4096) (filled f fs w s₁)) _
        (Returns-and _ _ (map_page k f (w % 4096) (filled f fs w s₁))
          (map_page-MapStep (w % 4096) k f (filled f fs w s₁) (in_use-new_entry f w used)
            (subst (All (GoodFrame s₁)) e c.free).1
            (ap visible (entry-filled k f w fs s₁)
              ∙ c.others k (omega arith)
              ∙ h.empty k (omega (arith, small))))
          (map_page-Keep k f (w % 4096) (filled f fs w s₁)))
        λ b s₂ m. mapped b s₂ m.0 m.1
    where
      mapped :
          (b : Bool) (s₂ : Space)
          → MapStep (w % 4096) k f b (filled f fs w s₁) s₂
          → Keep (filled f fs w s₁) s₂
          → Returns
              (λ r s'. CopyEnd pgdir (round_up sz) d s r s')
              (if b then rest s₂ else and_then (kfree f s₂) (λ _ s₃. give_up d s₃))
      mapped true s₂ m q =
          ih s₂ (Copied-step pgdir k f w fs s s₁ s₂ c h e found src (round_up sz) l parent m q)
            (omega (arith, p, m.spent, ap length e))
      mapped false s₂ m q =
          give_up-unmapped k f w fs s₁ s₂ l c e m q
            (omega (arith, p, m.exhausted refl, ap length e))

  copy_pages-CopyEnd :
      (n k : ℕ) (s₁ : Space)
      → round_up sz ≤ k + n
      → k ≤ round_up sz
      → Copied pgdir k s s₁
      → length s.free ≤ length s₁.free + 2 * k
      → Returns (λ r s'. CopyEnd pgdir (round_up sz) d s r s') (copy_pages pgdir sz d n k s₁)
  unfolding copy_pages
  copy_pages-CopyEnd zero k s₁ fuel hi c p = Copied-end k s₁ (omega arith) c
  copy_pages-CopyEnd (suc n) k s₁ fuel hi c p = elim (Bool-cases (ltb (k * pgsize) sz)) [
    | inr t ↦ rw t (Copied-end k s₁ (ground arith) c)
    | inl t ↦
        let inside : k < round_up sz = omega (arith, ltb→lt (k * pgsize) sz t) in
        let (w, found, used, src) = parent k inside in
        rw (t, found, used)
          (copy_entry-CopyEnd k w s₁ (copy_pages pgdir sz d n (k + 1)) s₁.free inside c p found used
            src refl λ s₂ c₂ p₂. copy_pages-CopyEnd n (k + 1) s₂ (omega arith) (omega arith) c₂ p₂)
  ]

-- In a directory without user pages, whose page tables have frames between the kernel and the top of
-- memory, as the free list has, the loop of `copyuvm` does not panic, for a size up to KERNBASE and
-- a parent whose pages are all present or encrypted and in frames that are not free. Either it
-- returns the directory: then each page of the parent is mapped to a frame of its own that was
-- free, with the flags of the parent's entry, encrypted or not, and the bytes of the parent's page;
-- the other pages are mapped as before, and the frames outside the free list are as before. Or it returns
-- 0, and the free list had fewer than two frames for each page.
pub copy_all-CopyEnd :
    (pgdir : Directory) (sz d : ℕ) (s : Space)
    → Fresh s
    → 0 < s.first
    → GoodFrame s d
    → sz ≤ kernbase
    → Parent pgdir (round_up sz) s
    → Returns (λ r s'. CopyEnd pgdir (round_up sz) d s r s') (copy_all pgdir sz (some d) s)
copy_all-CopyEnd pgdir sz d s h pos frame small parent =
    copy_pages-CopyEnd pgdir sz d s h pos frame (omega arith) parent (round_up sz) 0 s (omega arith)
      (omega arith) (Copied-start pgdir s h) (omega arith)
