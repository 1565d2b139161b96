-- ===== src/Vm/Space/Fork/Free.antt =====
-- `freevm` of p6/vm.c.
use cs537_spring.Prelude.{
  ℕ, zero, suc, ◌+◌, ◌*◌, ◌≡◌, ◌<◌, refl, arith, sym, ◌∙◌, subst, false, ◌||◌, ltb, leb, Option,
  none, some, Option-cases, ◌∷◌, ◌==◌, Bool-cases, inl, inr,
}
use cs537_spring.Vm.Word.{pte_page, pgsize}
use cs537_spring.Vm.Crypt.{kernbase}
use cs537_spring.Vm.Space.{
  Space, ok, Returns, Returns-bind, Returns-mono, fill, phystop, kfree, entry, set_entry, in_use,
  free_page, next_table, free_from, round_up, deallocuvm,
}
use cs537_spring.Vm.Space.Entry.{set_entry-rest, GoodFrame, GoodFree}
use cs537_spring.Vm.Space.Dealloc.{Owned, deallocuvm-Freed}
use cs537_spring.Vm.Space.Fork.{free_table, free_tables, freevm, give_up, npdentries}
use cs537_spring.Vm.Space.Fork.Keep.{
  Ensures-mono, Ensures, Ensures-bind, Returns-and, GoodTables, GoodFrame-move,
  GoodTables-set_entry,
}

-- The frames of the page tables may still be freed.
record Tables (s s' : Space) : Type 0 where
  first : s'.first ≡ s.first
  tables : GoodTables s → GoodTables s'

Tables-refl : (s : Space) → Tables s s
Tables-refl s = record { first = refl; tables = λ t. t }

Tables-trans : (s s₁ s₂ : Space) → Tables s s₁ → Tables s₁ s₂ → Tables s s₂
Tables-trans s s₁ s₂ a b = record { first = b.first ∙ a.first; tables = λ t. b.tables (a.tables t) }

-- The state in which the frame `f` has been freed.
abbrev pub freed : ℕ → Space → Space
freed f s = record (fill f 1 s) { free = f ∷ s.free }

pub kfree-GoodFrame : (f : ℕ) (s : Space) → GoodFrame s f → kfree f s ≡ ok tt (freed f s)
kfree-GoodFrame f s (lo, hi) =
    let inside : (ltb f s.first || leb phystop f) ≡ false = ground arith in rw inside refl

Tables-kfree : (f : ℕ) (s : Space) → Ensures (λ _ s'. Tables s s') (kfree f s)
Tables-kfree f s = elim (Bool-cases (ltb f s.first || leb phystop f)) [
  | inl e ↦ rw e tt
  | inr e ↦ rw e (record { first = refl; tables = λ t. t })
]

Tables-set_entry : (k w : ℕ) (s : Space) → Tables s (set_entry k w s)
Tables-set_entry k w s = record {
  first = (set_entry-rest k w s).1;
  tables = GoodTables-set_entry k w s;
}

Tables-free_page : (k w : ℕ) (s : Space) → Ensures (λ _ s'. Tables s s') (free_page k w s)
unfolding free_page
Tables-free_page k w s = elim (Bool-cases (in_use w)) [
  | inr u ↦ rw u (Tables-refl s)
  | inl u ↦ rw u (elim (Bool-cases (pte_page w == 0)) [
    | inl z ↦ rw z tt
    | inr z ↦ rw z (
        Ensures-bind (λ _ s'. Tables s s') _ (kfree (pte_page w) s) _ (Tables-kfree (pte_page w) s)
          λ _ s₁ h. Tables-trans s s₁ (set_entry k 0 s₁) h (Tables-set_entry k 0 s₁))
  ])
]

Tables-free_from :
    (n oldsz k : ℕ) (s : Space) → Ensures (λ _ s'. Tables s s') (free_from n oldsz k s)
unfolding free_from
Tables-free_from zero oldsz k s = Tables-refl s
Tables-free_from (suc n) oldsz k s = elim (Bool-cases (ltb (k * pgsize) oldsz)) [
  | inr t ↦ rw t (Tables-refl s)
  | inl t ↦ rw t (elim (Option-cases (entry k s)) [
    | inl e ↦ rw e (Tables-free_from n oldsz (next_table k) s)
    | inr (w, e) ↦ rw e (
        Ensures-bind (λ _ s'. Tables s s') _ (free_page k w s) _ (Tables-free_page k w s)
          λ _ s₁ h.
            Ensures-mono _ _ (free_from n oldsz (k + 1) s₁) (Tables-free_from n oldsz (k + 1) s₁)
              λ _ s₂ g. Tables-trans s s₁ s₂ h g)
  ])
]

Tables-deallocuvm :
    (oldsz newsz : ℕ) (s : Space) → Ensures (λ _ s'. Tables s s') (deallocuvm oldsz newsz s)
unfolding deallocuvm
Tables-deallocuvm oldsz newsz s = elim (Bool-cases (leb oldsz newsz)) [
  | inl t ↦ rw t (Tables-refl s)
  | inr t ↦ rw t (
      Ensures-bind (λ _ s'. Tables s s') _ (free_from (round_up oldsz) oldsz (round_up newsz) s) _
        (Tables-free_from (round_up oldsz) oldsz (round_up newsz) s) (λ _ s₁ h. h))
]

free_tables-Tables :
    (n i : ℕ) (s : Space) → GoodTables s → Returns (λ _ s'. Tables s s') (free_tables n i s)
unfolding free_tables
free_tables-Tables zero i s t = Tables-refl s
free_tables-Tables (suc n) i s t =
    Returns-bind (λ _ s'. Tables s s') _ (free_table i (s.dir i) s) _ (one (s.dir i) refl)
      λ _ s₁ h.
        Returns-mono _ _ (free_tables n (i + 1) s₁) (free_tables-Tables n (i + 1) s₁ (h.tables t))
          λ _ s₂ g. Tables-trans s s₁ s₂ h g
  where
    one : (o : Option (ℕ → ℕ)) → s.dir i ≡ o → Returns (λ _ s'. Tables s s') (free_table i o s)
    one none e = Tables-refl s
    one (some table) e =
        subst (Returns (λ _ s'. Tables s s')) (sym (kfree-GoodFrame (s.tables i) s (t i table e)))
          (record { first = refl; tables = λ h. h })

-- The ways to fail of `setupkvm` and `copyuvm` do not panic.
pub give_up-none :
    (d : ℕ) (s : Space)
    → 0 < s.first
    → GoodFree s
    → GoodTables s
    → GoodFrame s d
    → Owned 0 (round_up kernbase) s
    → Returns (λ r s'. r ≡ none) (give_up d s)
unfolding freevm
give_up-none d s pos free tables frame own =
    Returns-bind (λ _ s'. Unit) _ (freevm d s) _
      (Returns-bind (λ _ s'. Tables s s') _ (deallocuvm kernbase 0 s) _
        (Returns-mono _ _ (deallocuvm kernbase 0 s)
          (Returns-and _ _ (deallocuvm kernbase 0 s) (deallocuvm-Freed kernbase 0 s pos free own)
            (Tables-deallocuvm kernbase 0 s))
          λ _ s₁ h. h.1)
        λ _ s₁ h.
          Returns-bind (λ _ s'. Tables s₁ s') _ (free_tables npdentries 0 s₁) _
            (free_tables-Tables npdentries 0 s₁ (h.tables tables))
            λ _ s₂ g.
              subst (Returns (λ _ s'. Unit))
                (sym (kfree-GoodFrame d s₂ (GoodFrame-move s s₂ d (g.first ∙ h.first) frame))) tt)
      λ _ s₁ h. refl
