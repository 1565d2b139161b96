-- ===== src/Vm/Space/Alloc.antt =====
-- `allocuvm` of p6/vm.c: one page at a time.
use cs537_spring.Prelude.{
  ℕ, ◌+◌, ◌*◌, ◌/◌, ◌%◌, ◌≡◌, ◌≤◌, refl, arith, ap, sym, ◌∙◌, subst, Bool, true, false, ◌&&◌, not,
  Option, none, some, List, All, length, [], ◌∷◌, update, ◌==◌, if◌then◌else◌, Bool-cases, inl, inr,
}
use cs537_spring.Vm.Word.{has, pte_p, pte_w, pte_u, pte_e, pte_page}
use cs537_spring.Vm.Space.{
  Space, ok, panic, Returns, Returns-bind, fill, kalloc_from, entry, set_entry, in_use, is_used,
  walk, walk_from, new_table, new_entry, perm_user, map_page, and_then,
}
use cs537_spring.Vm.Space.Entry.{
  visible, GoodFrame, GoodFree, entry-set_entry, set_entry-rest, entry-none,
}
use cs537_spring.Vm.Space.FreePage.{GoodFree-rest}

-- The entry of a user's page: present, writable, the user's, not encrypted, and of its frame.
pub record UserEntry (f w : ℕ) : Type 0 where
  pub used : in_use w ≡ true
  pub present : has pte_p w ≡ true
  pub plain : has pte_e w ≡ false
  pub user : has pte_u w ≡ true
  pub writable : has pte_w w ≡ true
  pub frame : pte_page w ≡ f

new_entry-value : (f : ℕ) → new_entry f perm_user ≡ f * 4096 + 7
unfolding new_entry
new_entry-value f = ground arith

value-UserEntry : (f : ℕ) → UserEntry f (f * 4096 + 7)
value-UserEntry f = record {
  used = ground arith;
  present = ground arith;
  plain = ground arith;
  user = ground arith;
  writable = ground arith;
  frame = omega arith;
}

pub new_entry-UserEntry : (f : ℕ) → UserEntry f (new_entry f perm_user)
new_entry-UserEntry f = subst (UserEntry f) (sym (new_entry-value f)) (value-UserEntry f)

-- One page mapped, or the free list exhausted.
pub record MapStep (perm k f : ℕ) (b : Bool) (s s' : Space) : Type 0 where
  pub mapping :
      (j : ℕ)
      → visible (entry j s')
        ≡ (if b && (j == k) then some (new_entry f perm) else visible (entry j s))
  pub free : GoodFree s'
  pub first : s'.first ≡ s.first
  pub spent : length s.free ≤ length s'.free + 1
  pub exhausted : b ≡ false → length s.free ≡ 0

-- A page table added: what was mapped stays, and the entry of the page can be written.
record Tabled (k : ℕ) (b : Bool) (s s' : Space) : Type 0 where
  pub mapping : (j : ℕ) → visible (entry j s') ≡ visible (entry j s)
  pub there : b ≡ true → (v : ℕ) × (entry k s' ≡ some v)
  pub free : GoodFree s'
  pub first : s'.first ≡ s.first
  pub spent : length s.free ≤ length s'.free + 1
  pub exhausted : b ≡ false → length s.free ≡ 0

-- The state after a page table has been made of the frame `g`.
abbrev tabled : ℕ → ℕ → List ℕ → Space → Space
tabled k g gs s =
    let s₁ = record s { free = gs } in
    record (fill g 0 s₁) {
      dir = update s.dir (k / 1024) (some (λ i. 0));
      tables = update s.tables (k / 1024) g;
    }

entry-tabled :
    (j k g : ℕ) (gs : List ℕ) (s : Space)
    → entry k s ≡ none
    → entry j (tabled k g gs s) ≡ (if j / 1024 == k / 1024 then some 0 else entry j s)
unfolding entry
entry-tabled j k g gs s e = ground arith

visible-tabled :
    (j k g : ℕ) (gs : List ℕ) (s : Space)
    → entry k s ≡ none
    → visible (entry j (tabled k g gs s)) ≡ visible (entry j s)
visible-tabled j k g gs s e = elim (Bool-cases (j / 1024 == k / 1024)) [
  | inr n ↦ ap visible {y = entry j s} (entry-tabled j k g gs s e ∙ rw n refl)
  | inl y ↦
      ap visible {y = some 0} (entry-tabled j k g gs s e ∙ rw y refl)
      ∙ sym (ap visible (entry-none j k s e (ground arith)))
]

pub entry-absent : (k : ℕ) (s : Space) → s.dir (k / 1024) ≡ none → entry k s ≡ none
unfolding entry
entry-absent k s e = ground arith

pub entry-present :
    (k : ℕ) (table : ℕ → ℕ) (s : Space)
    → s.dir (k / 1024) ≡ some table
    → entry k s ≡ some (table (k % 1024))
unfolding entry
entry-present k table s e = ground arith

walk_from-Tabled :
    (k : ℕ) (s : Space) (o : Option (ℕ → ℕ)) (fs : List ℕ)
    → s.dir (k / 1024) ≡ o
    → s.free ≡ fs
    → GoodFree s
    → Returns (λ b s'. Tabled k b s s') (walk_from k s o)
unfolding entry
walk_from-Tabled k s (some table) fs e l g = record {
  mapping = λ j. refl;
  there = λ _. (table (k % 1024), entry-present k table s e);
  free = g;
  first = refl;
  spent = omega arith;
  exhausted = λ x. cc;
}
walk_from-Tabled k s none [] e l g =
    subst (λ xs. Returns (λ b s'. Tabled k b s s') (and_then (kalloc_from s xs) (new_table k)))
      (sym l)
      (record {
        mapping = λ j. refl;
        there = λ x. cc;
        free = g;
        first = refl;
        spent = omega arith;
        exhausted = λ _. ap length l;
      })
walk_from-Tabled k s none (f ∷ fs) e l g =
    subst (λ xs. Returns (λ b s'. Tabled k b s s') (and_then (kalloc_from s xs) (new_table k)))
      (sym l)
      (record {
        mapping = λ j. visible-tabled j k f fs s (entry-absent k s e);
        there = λ _. (0, ground arith);
        free = (subst (All (GoodFrame s)) l g).1;
        first = refl;
        spent = omega (arith, ap length l);
        exhausted = λ x. cc;
      })

walk-Tabled : (k : ℕ) (s : Space) → GoodFree s → Returns (λ b s'. Tabled k b s s') (walk k s)
unfolding walk
walk-Tabled k s g = walk_from-Tabled k s (s.dir (k / 1024)) s.free refl refl g

visible_unused : (o : Option ℕ) → visible o ≡ none → is_used o ≡ false
visible_unused none e = refl
visible_unused (some w) e = elim (Bool-cases (in_use w)) [ inl u ↦ cc | inr u ↦ u ]

visible-used :
    (b : Bool) (w : ℕ) (o : Option ℕ)
    → in_use w ≡ true
    → visible (if b then some w else o) ≡ (if b then some w else visible o)
visible-used true w o u = rw u refl
visible-used false w o u = refl

-- `mappages` for a page that is not mapped.
pub map_page-MapStep :
    (perm k f : ℕ) (s : Space)
    → in_use (new_entry f perm) ≡ true
    → GoodFree s
    → visible (entry k s) ≡ none
    → Returns (λ b s'. MapStep perm k f b s s') (map_page k f perm s)
unfolding map_page
map_page-MapStep perm k f s u g e =
    Returns-bind (λ b s'. Tabled k b s s') _ (walk k s) _ (walk-Tabled k s g) next
  where
    next :
        (b : Bool) (s₁ : Space)
        → Tabled k b s s₁
        → Returns
            (λ b s'. MapStep perm k f b s s')
            (if not b
              then ok false s₁
              else if is_used (entry k s₁)
              then panic
              else ok true (set_entry k (new_entry f perm) s₁))
    next false s₁ t = record {
      mapping = t.mapping;
      free = t.free;
      first = t.first;
      spent = t.spent;
      exhausted = t.exhausted;
    }
    next true s₁ t =
        let (v, at) = t.there refl in
        let rest = set_entry-rest k (new_entry f perm) s₁ in
        rw (visible_unused (entry k s₁) (t.mapping k ∙ e)) (record {
          mapping = λ j.
              ap visible (entry-set_entry j k v (new_entry f perm) s₁ at)
              ∙ visible-used (j == k) (new_entry f perm) (entry j s₁) u
              ∙ ap (λ o. if j == k then some (new_entry f perm) else o) (t.mapping j);
          free = GoodFree-rest s₁ (set_entry k (new_entry f perm) s₁) rest.1 rest.0 t.free;
          first = rest.1 ∙ t.first;
          spent = omega (arith, t.spent, ap length rest.0);
          exhausted = λ x. cc;
        })
