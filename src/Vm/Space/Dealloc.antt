-- ===== src/Vm/Space/Dealloc.antt =====
-- `deallocuvm` of p6/vm.c.
use cs537_spring.Prelude.{
  ℕ, zero, suc, ◌+◌, ◌*◌, ◌≡◌, ◌≤◌, ◌<◌, refl, arith, ap, sym, ◌∙◌, subst, Bool, false, ◌&&◌, ltb,
  leb, ltb→lt, Option, none, some, Option-cases, ◌==◌, if◌then◌else◌, Bool-cases, inl, inr,
}
use cs537_spring.Vm.Word.{pte_page, pgsize}
use cs537_spring.Vm.Space.{
  Space, Returns, Returns-bind, Returns-mono, entry, free_page, free_from, next_table, round_up,
  deallocuvm,
}
use cs537_spring.Vm.Space.Entry.{visible, GoodFrame, GoodFree, entry-none}
use cs537_spring.Vm.Space.FreePage.{FreedPage, free_page-FreedPage}

-- The mappings after the pages from `k` up to `end` have been freed.
pub record Freed (k end : ℕ) (s s' : Space) : Type 0 where
  pub mapping :
      (j : ℕ) → visible (entry j s') ≡ (if leb k j && ltb j end then none else visible (entry j s))
  pub free : GoodFree s'
  pub first : s'.first ≡ s.first

-- The frames of the pages from `k` up to `end` may be freed.
abbrev pub Owned : ℕ → ℕ → Space → Type 0
Owned k end s =
    (j w : ℕ) → k ≤ j → j < end → visible (entry j s) ≡ some w → GoodFrame s (pte_page w)

-- No page is left.
Freed-none : (k end : ℕ) (s : Space) → end ≤ k → GoodFree s → Freed k end s s
Freed-none k end s l free = record { mapping = λ j. outside j; free = free; first = refl }
  where
    outside :
        (j : ℕ) → visible (entry j s) ≡ (if leb k j && ltb j end then none else visible (entry j s))
    outside j = ground arith

-- The range without the pages of a page table that is not there.
Freed-skip :
    (k end : ℕ) (s s' : Space) → entry k s ≡ none → Freed (next_table k) end s s' → Freed k end s s'
Freed-skip k end s s' e h = record {
  mapping = λ j. h.mapping j ∙ skipped j;
  free = h.free;
  first = h.first;
}
  where
    skipped :
        (j : ℕ)
        → (if leb (next_table k) j && ltb j end then none else visible (entry j s))
          ≡ (if leb k j && ltb j end then none else visible (entry j s))
    skipped j = elim (Bool-cases (leb k j && ltb j (next_table k))) [
      | inr n ↦ ground arith
      | inl y ↦
          let gone : entry j s ≡ none = entry-none j k s e (ground arith) in
          rw gone (both_none (leb (next_table k) j && ltb j end) (leb k j && ltb j end))
    ]
      where
        both_none :
            (a b : Bool) → ◌≡◌ {A = Option ℕ} (if a then none else none) (if b then none else none)
        both_none a b = ground arith

-- The range after its first page.
Freed-step :
    (k end : ℕ) (s s₁ s' : Space)
    → k < end
    → FreedPage k s s₁
    → Freed (k + 1) end s₁ s'
    → Freed k end s s'
Freed-step k end s s₁ s' l p h = record {
  mapping = λ j. ground (arith, h.mapping j, p.mapping j);
  free = h.free;
  first = h.first ∙ p.first;
}

Owned-step : (k end : ℕ) (s s₁ : Space) → FreedPage k s s₁ → Owned k end s → Owned (k + 1) end s₁
Owned-step k end s s₁ p own j w lo hi e =
    let other : (j == k) ≡ false = ground arith in
    let g = own j w (omega arith) hi (sym (p.mapping j ∙ rw other refl) ∙ e) in
    (subst (λ n. n ≤ pte_page w) (sym p.first) g.0, g.1)

free_from-Freed :
    (n oldsz k : ℕ) (s : Space)
    → 0 < s.first
    → GoodFree s
    → round_up oldsz ≤ k + n
    → Owned k (round_up oldsz) s
    → Returns (λ _ s'. Freed k (round_up oldsz) s s') (free_from n oldsz k s)
unfolding free_from
free_from-Freed zero oldsz k s pos free l own = Freed-none k (round_up oldsz) s (omega arith) free
free_from-Freed (suc n) oldsz k s pos free l own = elim (Bool-cases (ltb (k * pgsize) oldsz)) [
  | inr t ↦ rw t (Freed-none k (round_up oldsz) s (ground arith) free)
  | inl t ↦ rw t (elim (Option-cases (entry k s)) [
    | inl e ↦ rw e (
        Returns-mono _ _ (free_from n oldsz (next_table k) s)
          (free_from-Freed n oldsz (next_table k) s pos free (omega arith)
            λ j w lo hi v. own j w (omega arith) hi v)
          λ _ s' h. Freed-skip k (round_up oldsz) s s' e h)
    | inr (w, e) ↦
        let inside : k < round_up oldsz = omega (arith, ltb→lt (k * pgsize) oldsz t) in
        rw e (
          Returns-bind (λ _ s₁. FreedPage k s s₁) _ (free_page k w s) _
            (free_page-FreedPage k w s pos free e
              λ u. own k w (omega arith) inside (ap visible e ∙ rw u refl))
            λ _ s₁ p.
              Returns-mono _ _ (free_from n oldsz (k + 1) s₁)
                (free_from-Freed n oldsz (k + 1) s₁ (subst (λ m. 0 < m) (sym p.first) pos) p.free
                  (omega arith) (Owned-step k (round_up oldsz) s s₁ p own))
                λ _ s' h. Freed-step k (round_up oldsz) s s₁ s' inside p h)
  ])
]

-- If the frames of the free list, and those that the pages from `newsz` up to `oldsz` are mapped
-- to, lie between the kernel and the top of memory, `deallocuvm` does not panic. It returns the
-- smaller size; the pages that lie behind `newsz`, up to the one of `oldsz`, are not mapped any
-- more, and every other page is mapped as before.
pub deallocuvm-Freed :
    (oldsz newsz : ℕ) (s : Space)
    → 0 < s.first
    → GoodFree s
    → Owned (round_up newsz) (round_up oldsz) s
    → Returns
        (λ r s'.
          (r ≡ (if leb oldsz newsz then oldsz else newsz))
          × Freed (round_up newsz) (round_up oldsz) s s')
        (deallocuvm oldsz newsz s)
unfolding deallocuvm
deallocuvm-Freed oldsz newsz s pos free own = elim (Bool-cases (leb oldsz newsz)) [
  | inl t ↦ rw t (refl, Freed-none (round_up newsz) (round_up oldsz) s (ground arith) free)
  | inr t ↦ rw t (
      Returns-bind (λ _ s'. Freed (round_up newsz) (round_up oldsz) s s') _
        (free_from (round_up oldsz) oldsz (round_up newsz) s) _
        (free_from-Freed (round_up oldsz) oldsz (round_up newsz) s pos free (omega arith) own)
        λ _ s' h. (refl, h))
]
