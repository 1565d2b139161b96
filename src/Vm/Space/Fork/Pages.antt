-- ===== src/Vm/Space/Fork/Pages.antt =====
-- `mappages` of p6/vm.c for a range of pages, with the page tables that it costs.
use cs537_spring.Prelude.{
  ℕ, zero, suc, ◌+◌, ◌-◌, ◌/◌, ◌%◌, ◌≡◌, ◌≢◌, ◌≤◌, ◌<◌, ◌⊎◌, refl, arith, ap, sym, ◌∙◌, subst, Bool,
  true, false, ◌&&◌, not, ltb, leb, ◌==◌, ==_iff, Option, none, some, Option-cases, List, length,
  [], ◌∷◌, if◌then◌else◌, Bool-cases, inl, inr,
}
use native.Mathlib.Decide.{ℕ_discrete}
use cs537_spring.Vm.Space.{
  Space, ok, panic, Returns, Returns-bind, Returns-mono, and_then, kalloc_from, entry, set_entry,
  in_use, is_used, new_entry, new_table, walk, walk_from, map_page,
}
use cs537_spring.Vm.Space.Entry.{visible, GoodFree, entry-set_entry, set_entry-rest, entry-none}
use cs537_spring.Vm.Space.Alloc.{MapStep, map_page-MapStep, entry-absent, entry-present}
use cs537_spring.Vm.Space.Grow.{Unmapped}
use cs537_spring.Vm.Space.Fork.{map_pages}
use cs537_spring.Vm.Space.Fork.Keep.{
  Ensures, Ensures-bind, Ensures-and, Returns-and, Keep, Keep-refl, Keep-trans, map_page-Keep,
}

-- The page table of page `k` is there after a success, and costs no frame if it was there before.
record Present (k : ℕ) (b : Bool) (s s' : Space) : Type 0 where
  there : b ≡ true → (v : ℕ) × (entry k s' ≡ some v)
  costless : (v : ℕ) → entry k s ≡ some v → s'.free ≡ s.free

none-some : (a : ℕ) → none ≡ some a → ⊥
none-some a q = cc

walk_from-Present :
    (k : ℕ) (s : Space) (o : Option (ℕ → ℕ)) (fs : List ℕ)
    → s.dir (k / 1024) ≡ o
    → s.free ≡ fs
    → Ensures (λ b s'. Present k b s s') (walk_from k s o)
unfolding entry
walk_from-Present k s (some table) fs e l = record {
  there = λ _. (table (k % 1024), entry-present k table s e);
  costless = λ v at. refl;
}
walk_from-Present k s none [] e l =
    subst (λ xs. Ensures (λ b s'. Present k b s s') (and_then (kalloc_from s xs) (new_table k)))
      (sym l) (record { there = λ x. cc; costless = λ v at. refl })
walk_from-Present k s none (f ∷ fs) e l =
    subst (λ xs. Ensures (λ b s'. Present k b s s') (and_then (kalloc_from s xs) (new_table k)))
      (sym l)
      (record {
        there = λ _. (0, ground arith);
        costless = λ v at. absurd (none-some v (sym (entry-absent k s e) ∙ at));
      })

map_page-Present :
    (k f perm : ℕ) (s : Space) → Ensures (λ b s'. Present k b s s') (map_page k f perm s)
unfolding map_page walk
map_page-Present k f perm s =
    Ensures-bind (λ b s'. Present k b s s') _ (walk k s) _
      (walk_from-Present k s (s.dir (k / 1024)) s.free refl refl) next
  where
    next :
        (b : Bool) (s₁ : Space)
        → Present k b s s₁
        → Ensures
            (λ b s'. Present k b s s')
            (if not b
              then ok false s₁
              else if is_used (entry k s₁)
              then panic
              else ok true (set_entry k (new_entry f perm) s₁))
    next false s₁ h = h
    next true s₁ h = elim (Bool-cases (is_used (entry k s₁))) [
      | inl u ↦ rw u tt
      | inr u ↦
          let (v, at) = h.there refl in
          rw u (record {
            there = λ _. (
              new_entry f perm,
              entry-set_entry k k v (new_entry f perm) s₁ at ∙ rw ((==_iff k k).1 refl) refl,
            );
            costless = λ x e. (set_entry-rest k (new_entry f perm) s₁).0 ∙ h.costless x e;
          })
    ]

-- A page table for page `k` costs `c` frames at most.
abbrev pub Cost : ℕ → ℕ → Space → Type 0
Cost c k s = (c ≡ 1) ⊎ ((v : ℕ) × (entry k s ≡ some v))

-- What is left of the free list, where a failure leaves nothing.
abbrev pub left : Bool → Space → ℕ
left b s = if b then length s.free else 0

-- The pages from `k` on are mapped to the frames from `f` on, or the free list is exhausted.
pub record Range (c perm k f n : ℕ) (b : Bool) (s s' : Space) : Type 0 where
  pub mapping :
      b ≡ true
      → (j : ℕ)
      → visible (entry j s') ≡ (
          if leb k j && ltb j (k + n)
          then some (new_entry (f + (j - k)) perm)
          else visible (entry j s))
  pub below : (j : ℕ) → j < k → visible (entry j s') ≡ visible (entry j s)
  pub keep : Keep s s'
  pub first : s'.first ≡ s.first
  pub free : GoodFree s'
  pub spent : length s.free ≤ left b s' + (k % 1024 + n) / 1024 + c

next_present :
    (k v : ℕ) (s : Space)
    → entry k s ≡ some v
    → (k + 1) % 1024 ≢ 0
    → (u : ℕ) × (entry (k + 1) s ≡ some u)
next_present k v s e h = elim (Option-cases (entry (k + 1) s)) [
  | inr p ↦ p
  | inl n ↦ absurd (none-some v (sym (entry-none k (k + 1) s n (omega arith)) ∙ e))
]

Cost-length :
    (c k f perm : ℕ) (b : Bool) (s s₁ : Space)
    → Cost c k s
    → MapStep perm k f b s s₁
    → Present k b s s₁
    → length s.free ≤ length s₁.free + c
Cost-length c k f perm b s s₁ (inl e) m p = omega (arith, m.spent)
Cost-length c k f perm b s s₁ (inr (v, e)) m p = omega (arith, ap length (p.costless v e))

range_step :
    (j k n f perm : ℕ) (o o₁ : Option ℕ)
    → o₁ ≡ (if j == k then some (new_entry f perm) else o)
    → (if leb (k + 1) j && ltb j (k + 1 + n)
        then some (new_entry (f + 1 + (j - (k + 1))) perm)
        else o₁)
      ≡ (if leb k j && ltb j (k + suc n) then some (new_entry (f + (j - k)) perm) else o)
range_step j k n f perm o o₁ e = ground (arith, e)

-- The pages behind the first.
Range-step :
    (c c' perm k f n : ℕ) (b : Bool) (s s₁ s₂ : Space)
    → MapStep perm k f true s s₁
    → Keep s s₁
    → length s.free ≤ length s₁.free + c
    → ((k + 1) % 1024 + n) / 1024 + c' ≤ (k % 1024 + suc n) / 1024
    → Range c' perm (k + 1) (f + 1) n b s₁ s₂
    → Range c perm k f (suc n) b s s₂
Range-step c c' perm k f n b s s₁ s₂ m q p le r = record {
  mapping = λ t j.
      r.mapping t j
      ∙ range_step j k n f perm (visible (entry j s)) (visible (entry j s₁)) (m.mapping j);
  below = λ j l. r.below j (omega arith) ∙ before j l;
  keep = Keep-trans s s₁ s₂ q r.keep;
  first = r.first ∙ m.first;
  free = r.free;
  spent = omega (arith, r.spent, p, le);
}
  where
    before : (j : ℕ) → j < k → visible (entry j s₁) ≡ visible (entry j s)
    before j l = let ne : (j == k) ≡ false = ground arith in m.mapping j ∙ rw ne refl

-- The first page, and the rest by `ih`.
Range-first :
    (n c perm k f : ℕ) (b : Bool) (s s₁ : Space)
    → Cost c k s
    → Unmapped k (k + suc n) s
    → ((c' : ℕ) (t : Space)
        → Cost c' (k + 1) t
        → GoodFree t
        → Unmapped (k + 1) (k + 1 + n) t
        → Returns
            (λ b s'. Range c' perm (k + 1) (f + 1) n b t s')
            (map_pages n (k + 1) (f + 1) perm t))
    → MapStep perm k f b s s₁
    → Keep s s₁
    → Present k b s s₁
    → Returns
        (λ b s'. Range c perm k f (suc n) b s s')
        (if b then map_pages n (k + 1) (f + 1) perm s₁ else ok false s₁)
Range-first n c perm k f false s s₁ cost un ih m q p = record {
  mapping = λ t. cc;
  below = λ j l. m.mapping j;
  keep = q;
  first = m.first;
  free = m.free;
  spent = omega (arith, m.exhausted refl);
}
Range-first n c perm k f true s s₁ cost un ih m q p =
    let paid = Cost-length c k f perm true s s₁ cost m p in
    elim (ℕ_discrete ((k + 1) % 1024) 0) [
      | yes z ↦
          Returns-mono _ _ (map_pages n (k + 1) (f + 1) perm s₁)
            (ih 1 s₁ (inl refl) m.free rest_unmapped)
            λ b s₂ r. Range-step c 1 perm k f n b s s₁ s₂ m q paid (omega arith) r
      | no z ↦
          Returns-mono _ _ (map_pages n (k + 1) (f + 1) perm s₁)
            (ih 0 s₁ (inr (next_present k (p.there refl).0 s₁ (p.there refl).1 z)) m.free
              rest_unmapped)
            λ b s₂ r. Range-step c 0 perm k f n b s s₁ s₂ m q paid (omega arith) r
    ]
  where
    rest_unmapped : Unmapped (k + 1) (k + 1 + n) s₁
    rest_unmapped j lo hi =
        let ne : (j == k) ≡ false = ground arith in
        m.mapping j ∙ rw ne (un j (omega arith) (omega arith))

-- `mappages` for pages that are not mapped, whose entries are in use afterwards.
pub map_pages-Range :
    (n c perm k f : ℕ) (s : Space)
    → ((g : ℕ) → in_use (new_entry g perm) ≡ true)
    → Cost c k s
    → GoodFree s
    → Unmapped k (k + n) s
    → Returns (λ b s'. Range c perm k f n b s s') (map_pages n k f perm s)
unfolding map_pages
map_pages-Range zero c perm k f s used cost g un = record {
  mapping = λ t j. none_yet j;
  below = λ j l. refl;
  keep = Keep-refl s;
  first = refl;
  free = g;
  spent = omega arith;
}
  where
    none_yet :
        (j : ℕ)
        → visible (entry j s) ≡ (
            if leb k j && ltb j (k + 0)
            then some (new_entry (f + (j - k)) perm)
            else visible (entry j s))
    none_yet j = ground arith
map_pages-Range (suc n) c perm k f s used cost g un =
    Returns-bind (λ b s₁. MapStep perm k f b s s₁ × (Keep s s₁ × Present k b s s₁)) _
      (map_page k f perm s) _
      (Returns-and _ _ (map_page k f perm s)
        (map_page-MapStep perm k f s (used f) g (un k (omega arith) (omega arith)))
        (Ensures-and _ _ (map_page k f perm s) (map_page-Keep k f perm s)
          (map_page-Present k f perm s)))
      λ b s₁ h.
        Range-first n c perm k f b s s₁ cost un
          (λ c' t. map_pages-Range n c' perm (k + 1) (f + 1) t used) h.0 h.1.0 h.1.1
