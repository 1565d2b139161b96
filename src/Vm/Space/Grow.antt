-- ===== src/Vm/Space/Grow.antt =====
-- The pages that the loop of `allocuvm` of p6/vm.c has mapped, and taking them back.
pub mod Loop
use cs537_spring.Prelude.{
  ℕ, zero, suc, ◌+◌, ◌-◌, ◌*◌, ◌/◌, ◌%◌, ◌≡◌, ◌≢◌, ◌≤◌, ◌<◌, ◌⊎◌, refl, arith, ap, sym, ◌∙◌, subst,
  Bool, true, false, ◌&&◌, ◌||◌, not, ltb, leb, ltb→lt, Option, none, some, Option-cases, List, All,
  length, [], ◌∷◌, update, ◌==◌, if◌then◌else◌, Bool-cases, inl, inr,
}
use cs537_spring.Vm.Word.{has, pte_p, pte_w, pte_u, pte_e, pte_page, pgsize}
use cs537_spring.Vm.Crypt.{kernbase}
use cs537_spring.Vm.Space.{
  Space, Result, ok, panic, Command, Returns, Returns-bind, Returns-mono, fill, kfree, kalloc,
  kalloc_from, entry, set_entry, in_use, new_entry, perm_user, map_page, phystop, and_then,
  round_up, deallocuvm, undo, undo_free, alloc_at, alloc_from, allocuvm,
}
use cs537_spring.Vm.Space.Entry.{visible, GoodFrame, GoodFree, All-map}
use cs537_spring.Vm.Space.Dealloc.{Freed, Owned, deallocuvm-Freed}
use cs537_spring.Vm.Space.FreePage.{GoodFree-rest, GoodFree-push}
use cs537_spring.Vm.Space.Alloc.{UserEntry, new_entry-UserEntry, MapStep, map_page-MapStep}

-- The pages from `start` up to `k` have been mapped for a user, and no other mapping has changed.
pub record Grown (start k : ℕ) (s s' : Space) : Type 0 where
  pub mapped :
      (j : ℕ)
      → start ≤ j
      → j < k
      → (f w : ℕ) × (visible (entry j s') ≡ some w) × UserEntry f w × GoodFrame s' f
  pub others :
      (j : ℕ) → (leb start j && ltb j k) ≡ false → visible (entry j s') ≡ visible (entry j s)
  pub free : GoodFree s'
  pub first : s'.first ≡ s.first

-- Each of these pages has cost two frames at most.
abbrev pub Spent : ℕ → ℕ → Space → Space → Type 0
Spent start k s s' = length s.free ≤ length s'.free + 2 * (k - start)

-- No mapping has changed, after the free list was found too short for the pages up to `end`.
pub record Undone (start end : ℕ) (s s' : Space) : Type 0 where
  pub mapping : (j : ℕ) → visible (entry j s') ≡ visible (entry j s)
  pub free : GoodFree s'
  pub first : s'.first ≡ s.first
  pub short : length s.free < 2 * (end - start)

-- The pages are not mapped.
abbrev pub Unmapped : ℕ → ℕ → Space → Type 0
Unmapped start end s = (j : ℕ) → start ≤ j → j < end → visible (entry j s) ≡ none

pub Grown-start : (start : ℕ) (s : Space) → GoodFree s → Grown start start s s
Grown-start start s g = record {
  mapped = λ j lo hi. absurd (omega arith);
  others = λ j o. refl;
  free = g;
  first = refl;
}

-- The state in which `kalloc` has given the frame `f`, filled with zeros.
abbrev pub taken : ℕ → List ℕ → Space → Space
taken f fs s = fill f 0 (record s { free = fs })

pub entry-taken : (j f : ℕ) (fs : List ℕ) (s : Space) → entry j (taken f fs s) ≡ entry j s
unfolding entry
entry-taken j f fs s = refl

-- One more page.
pub Grown-step :
    (start k f : ℕ) (fs : List ℕ) (s s₁ s₂ : Space)
    → start ≤ k
    → Grown start k s s₁
    → s₁.free ≡ f ∷ fs
    → MapStep perm_user k f true (taken f fs s₁) s₂
    → Grown start (k + 1) s s₂
Grown-step start k f fs s s₁ s₂ l g e m = record {
  mapped = λ j lo hi. elim (Bool-cases (j == k)) [
    | inl q ↦ (
      f,
      new_entry f perm_user,
      m.mapping j ∙ rw q refl,
      new_entry-UserEntry f,
      move f (subst (All (GoodFrame s₁)) e g.free).0,
    )
    | inr q ↦
        let (f', w, v, u, gf) = g.mapped j lo (ground arith) in
        (f', w, m.mapping j ∙ rw (q, entry-taken j f fs s₁) v, u, move f' gf)
  ];
  others = λ j o.
      let ne : (j == k) ≡ false = ground arith in
      m.mapping j ∙ rw (ne, entry-taken j f fs s₁) (g.others j (ground arith));
  free = m.free;
  first = m.first ∙ g.first;
}
  where
    move : (x : ℕ) → GoodFrame s₁ x → GoodFrame s₂ x
    move x (lo, hi) = (subst (λ n. n ≤ x) (sym m.first) lo, hi)

-- After `deallocuvm` over the whole range, the first state's mappings are back.
pub undo_mapping :
    (start end k : ℕ) (s s₁ s₂ : Space)
    → Unmapped start end s
    → k ≤ end
    → Grown start k s s₁
    → Freed start end s₁ s₂
    → (j : ℕ) → visible (entry j s₂) ≡ visible (entry j s)
undo_mapping start end k s s₁ s₂ un l g h j = elim (Bool-cases (leb start j && ltb j end)) [
  | inl i ↦ h.mapping j ∙ rw i (sym (un j (ground arith) (ground arith)))
  | inr o ↦ h.mapping j ∙ rw o (g.others j (ground arith))
]

-- What the loop has mapped may be freed.
pub Grown-Owned :
    (start end k : ℕ) (s s₁ : Space)
    → Unmapped start end s
    → Grown start k s s₁
    → Owned start end s₁
Grown-Owned start end k s s₁ un g j w lo hi e = elim (Bool-cases (ltb j k)) [
  | inl t ↦
      let (f, v, at, u, gf) = g.mapped j lo (ltb→lt j k t) in
      let same : some v ≡ some w = sym at ∙ e in
      subst (GoodFrame s₁) (sym u.frame ∙ ap pte_page (some_eq v w same)) gf
  | inr t ↦ absurd (none_some w (sym (g.others j (ground arith) ∙ un j lo hi) ∙ e))
]
  where
    some_eq : (a b : ℕ) → some a ≡ some b → a ≡ b
    some_eq a b q = ground arith

    none_some : (a : ℕ) → none ≡ some a → ⊥
    none_some a q = cc
