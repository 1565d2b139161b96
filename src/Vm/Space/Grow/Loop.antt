-- ===== src/Vm/Space/Grow/Loop.antt =====
-- The loop of `allocuvm` of p6/vm.c, with its two ways to fail.
use cs537_spring.Prelude.{
  ℕ, zero, suc, ◌+◌, ◌-◌, ◌*◌, ◌≡◌, ◌≤◌, ◌<◌, ◌⊎◌, refl, arith, ap, sym, ◌∙◌, subst, Bool, true,
  false, ◌&&◌, ◌||◌, ltb, leb, ltb→lt, List, All, length, [], ◌∷◌, if◌then◌else◌, Bool-cases, inl,
  inr,
}
use cs537_spring.Vm.Word.{pgsize}
use cs537_spring.Vm.Crypt.{kernbase}
use cs537_spring.Vm.Space.{
  Space, ok, Returns, Returns-bind, Returns-mono, fill, kfree, kalloc_from, entry, perm_user,
  map_page, phystop, and_then, round_up, deallocuvm, undo, undo_free, alloc_at, alloc_from,
  allocuvm,
}
use cs537_spring.Vm.Space.Entry.{GoodFrame, GoodFree}
use cs537_spring.Vm.Space.Dealloc.{Freed, deallocuvm-Freed}
use cs537_spring.Vm.Space.FreePage.{GoodFree-push}
use cs537_spring.Vm.Space.Alloc.{new_entry-UserEntry, MapStep, map_page-MapStep}
use cs537_spring.Vm.Space.Grow.{
  Grown, Spent, Undone, Unmapped, Grown-start, taken, entry-taken, Grown-step, undo_mapping,
  Grown-Owned,
}

-- What a round of the loop may end in.
abbrev pub Outcome : ℕ → ℕ → ℕ → Space → ℕ → Space → Type 0
Outcome start end newsz s r s' =
    ((r ≡ newsz) × Grown start end s s') ⊎ ((r ≡ 0) × Undone start end s s')

module _ (oldsz newsz : ℕ) (s : Space) (pos : 0 < s.first)
    (un : Unmapped (round_up oldsz) (round_up newsz) s) where
  Undone-Freed :
      (k : ℕ) (s₁ s₂ : Space)
      → k < round_up newsz
      → Grown (round_up oldsz) k s s₁
      → length s.free < 2 * (round_up newsz - round_up oldsz)
      → Freed (round_up oldsz) (round_up newsz) s₁ s₂
      → Undone (round_up oldsz) (round_up newsz) s s₂
  Undone-Freed k s₁ s₂ hi g short h = record {
    mapping = undo_mapping (round_up oldsz) (round_up newsz) k s s₁ s₂ un (omega arith) g h;
    free = h.free;
    first = h.first ∙ g.first;
    short = short;
  }

  -- `deallocuvm` over the whole range.
  deallocuvm-Grown :
      (k : ℕ) (s₁ : Space)
      → Grown (round_up oldsz) k s s₁
      → Returns (λ _ s₂. Freed (round_up oldsz) (round_up newsz) s₁ s₂) (deallocuvm newsz oldsz s₁)
  deallocuvm-Grown k s₁ g =
      Returns-mono _ _ (deallocuvm newsz oldsz s₁)
        (deallocuvm-Freed newsz oldsz s₁ (subst (λ n. 0 < n) (sym g.first) pos) g.free
          (Grown-Owned (round_up oldsz) (round_up newsz) k s s₁ un g))
        λ _ s₂ h. h.1

  -- The first way to fail: there is no frame.
  undo-Undone :
      (k : ℕ) (s₁ : Space)
      → k < round_up newsz
      → round_up oldsz ≤ k
      → Grown (round_up oldsz) k s s₁
      → Spent (round_up oldsz) k s s₁
      → length s₁.free ≡ 0
      → Returns
          (λ r s'. Outcome (round_up oldsz) (round_up newsz) newsz s r s')
          (undo oldsz newsz s₁)
  undo-Undone k s₁ hi lo g p e =
      Returns-bind (λ _ s₂. Freed (round_up oldsz) (round_up newsz) s₁ s₂) _
        (deallocuvm newsz oldsz s₁) _ (deallocuvm-Grown k s₁ g)
        λ _ s₂ h. inr (refl, Undone-Freed k s₁ s₂ hi g (omega arith) h)

  Undone-kfree :
      (f : ℕ) (s₂ : Space)
      → GoodFrame s f
      → Undone (round_up oldsz) (round_up newsz) s s₂
      → Returns
          (λ r s'. Outcome (round_up oldsz) (round_up newsz) newsz s r s')
          (and_then (kfree f s₂) (λ _ s₃. ok 0 s₃))
  unfolding entry
  Undone-kfree f s₂ (lo, hi) u =
      let inside : (ltb f s₂.first || leb phystop f) ≡ false = ground (arith, u.first) in
      rw inside (
        inr (
          refl,
          record {
            mapping = u.mapping;
            free =
                GoodFree-push s₂ (record (fill f 1 s₂) { free = f ∷ s₂.free }) f refl refl
                  (subst (λ n. n ≤ f) (sym u.first) lo, hi) u.free;
            first = u.first;
            short = u.short;
          },
        ))

  -- The second: there is no page table.
  undo_free-Undone :
      (k f : ℕ) (fs : List ℕ) (s₁ s₂ : Space)
      → k < round_up newsz
      → round_up oldsz ≤ k
      → Grown (round_up oldsz) k s s₁
      → Spent (round_up oldsz) k s s₁
      → s₁.free ≡ f ∷ fs
      → MapStep perm_user k f false (taken f fs s₁) s₂
      → Returns
          (λ r s'. Outcome (round_up oldsz) (round_up newsz) newsz s r s')
          (undo_free oldsz newsz f s₂)
  undo_free-Undone k f fs s₁ s₂ hi lo g p e m =
      Returns-bind (λ _ s₃. Freed (round_up oldsz) (round_up newsz) s₂ s₃) _
        (deallocuvm newsz oldsz s₂) _ (deallocuvm-Grown k s₂ g₂)
        λ _ s₃ h.
          Undone-kfree f s₃ frame
            (Undone-Freed k s₂ s₃ hi g₂ (omega (arith, p, ap length e, m.exhausted refl)) h)
    where
      g₂ : Grown (round_up oldsz) k s s₂
      g₂ = record {
        mapped = λ j a b.
            let (f', w, v, u, (x, y)) = g.mapped j a b in
            (
              f',
              w,
              m.mapping j ∙ rw (entry-taken j f fs s₁) v,
              u,
              (subst (λ n. n ≤ f') (sym m.first) x, y),
            );
        others = λ j o. m.mapping j ∙ rw (entry-taken j f fs s₁) (g.others j o);
        free = m.free;
        first = m.first ∙ g.first;
      }

      frame : GoodFrame s f
      frame =
          let (x, y) = (subst (All (GoodFrame s₁)) e g.free).0 in (subst (λ n. n ≤ f) g.first x, y)

  Grown-end :
      (k : ℕ) (s₁ : Space)
      → k ≡ round_up newsz
      → Grown (round_up oldsz) k s s₁
      → Outcome (round_up oldsz) (round_up newsz) newsz s newsz s₁
  Grown-end k s₁ e g = inl (refl, subst (λ j. Grown (round_up oldsz) j s s₁) e g)

  alloc_from-Outcome :
      (n k : ℕ) (s₁ : Space)
      → round_up newsz ≤ k + n
      → round_up oldsz ≤ k
      → k ≤ round_up newsz
      → Grown (round_up oldsz) k s s₁
      → Spent (round_up oldsz) k s s₁
      → Returns
          (λ r s'. Outcome (round_up oldsz) (round_up newsz) newsz s r s')
          (alloc_from n oldsz newsz k s₁)
  unfolding alloc_from
  alloc_from-Outcome zero k s₁ fuel lo hi g p = Grown-end k s₁ (omega arith) g
  alloc_from-Outcome (suc n) k s₁ fuel lo hi g p = elim (Bool-cases (ltb (k * pgsize) newsz)) [
    | inr t ↦ rw t (Grown-end k s₁ (ground arith) g)
    | inl t ↦ rw t (
        taking n k s₁ fuel lo (omega (arith, ltb→lt (k * pgsize) newsz t)) g p s₁.free refl
          (alloc_from-Outcome n (k + 1)))
  ]
    where
      taking :
          (n k : ℕ) (s₁ : Space)
          → round_up newsz ≤ k + suc n
          → round_up oldsz ≤ k
          → k < round_up newsz
          → Grown (round_up oldsz) k s s₁
          → Spent (round_up oldsz) k s s₁
          → (fs : List ℕ) → s₁.free ≡ fs
          → ((s₂ : Space)
              → round_up newsz ≤ k + 1 + n
              → round_up oldsz ≤ k + 1
              → k + 1 ≤ round_up newsz
              → Grown (round_up oldsz) (k + 1) s s₂
              → Spent (round_up oldsz) (k + 1) s s₂
              → Returns
                  (λ r s'. Outcome (round_up oldsz) (round_up newsz) newsz s r s')
                  (alloc_from n oldsz newsz (k + 1) s₂))
          → Returns
              (λ r s'. Outcome (round_up oldsz) (round_up newsz) newsz s r s')
              (and_then
                (kalloc_from s₁ fs)
                (alloc_at (alloc_from n oldsz newsz (k + 1)) oldsz newsz k))
      taking n k s₁ fuel lo hi g p [] e ih = undo-Undone k s₁ hi lo g p (ap length e)
      taking n k s₁ fuel lo hi g p (f ∷ fs) e ih =
          Returns-bind (λ b s₂. MapStep perm_user k f b (taken f fs s₁) s₂) _
            (map_page k f perm_user (taken f fs s₁)) _
            (map_page-MapStep perm_user k f (taken f fs s₁) ((new_entry-UserEntry f).used)
              (subst (All (GoodFrame s₁)) e g.free).1
              (rw (entry-taken k f fs s₁) (g.others k (edge k) ∙ un k lo hi)))
            λ b s₂ m. mapped b s₂ m
        where
          edge : (k : ℕ) → (leb (round_up oldsz) k && ltb k k) ≡ false
          edge k = ground arith

          mapped :
              (b : Bool) (s₂ : Space)
              → MapStep perm_user k f b (taken f fs s₁) s₂
              → Returns
                  (λ r s'. Outcome (round_up oldsz) (round_up newsz) newsz s r s')
                  (if b then alloc_from n oldsz newsz (k + 1) s₂ else undo_free oldsz newsz f s₂)
          mapped true s₂ m =
              ih s₂ (omega arith) (omega arith) (omega arith)
                (Grown-step (round_up oldsz) k f fs s s₁ s₂ lo g e m)
                (omega (arith, p, m.spent, ap length e))
          mapped false s₂ m = undo_free-Undone k f fs s₁ s₂ hi lo g p e m

-- If the frames of the free list are between the kernel and the top of memory, and the pages behind
-- `oldsz` up to the one of `newsz` are not mapped, `allocuvm` from `oldsz` to a size `newsz` that is
-- not smaller, and below KERNBASE, does not panic. Either it returns `newsz`: then each of these
-- pages is mapped to a frame that may be freed, present, writable and the user's, and no other
-- mapping has changed. Or it returns 0, and no mapping has changed at all; then the free list had
-- fewer than two frames for each page. To KERNBASE and above it returns 0, to a smaller size it
-- returns `oldsz`, and the state stays.
pub allocuvm-Outcome :
    (oldsz newsz : ℕ) (s : Space)
    → 0 < s.first
    → GoodFree s
    → Unmapped (round_up oldsz) (round_up newsz) s
    → Returns
        (λ r s'.
          if leb kernbase newsz
          then (r ≡ 0) × (s' ≡ s)
          else if ltb newsz oldsz
          then (r ≡ oldsz) × (s' ≡ s)
          else Outcome (round_up oldsz) (round_up newsz) newsz s r s')
        (allocuvm oldsz newsz s)
unfolding allocuvm
allocuvm-Outcome oldsz newsz s pos free un = elim (Bool-cases (leb kernbase newsz)) [
  | inl h ↦ rw h (refl, refl)
  | inr h ↦ rw h (elim (Bool-cases (ltb newsz oldsz)) [
    | inl t ↦ rw t (refl, refl)
    | inr t ↦ rw t (
        alloc_from-Outcome oldsz newsz s pos un (round_up newsz) (round_up oldsz) s (omega arith)
          (omega arith) (ground arith) (Grown-start (round_up oldsz) s free) (omega arith))
  ])
]
