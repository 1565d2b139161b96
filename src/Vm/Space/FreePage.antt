-- ===== src/Vm/Space/FreePage.antt =====
-- One round of `deallocuvm` of p6/vm.c.
use cs537_spring.Prelude.{
  ℕ, ◌≡◌, ◌≤◌, ◌<◌, refl, arith, ap, sym, ◌∙◌, subst, Bool, true, false, ◌||◌, ltb, leb, Option,
  none, some, All, ◌∷◌, ◌==◌, if◌then◌else◌, Bool-cases, inl, inr,
}
use cs537_spring.Vm.Word.{pte_page}
use cs537_spring.Vm.Space.{Space, Returns, fill, entry, set_entry, in_use, free_page, phystop}
use cs537_spring.Vm.Space.Entry.{
  visible, GoodFrame, GoodFree, All-map, entry-set_entry, set_entry-rest,
}

-- A page freed.
pub record FreedPage (k : ℕ) (s s' : Space) : Type 0 where
  pub mapping : (j : ℕ) → visible (entry j s') ≡ (if j == k then none else visible (entry j s))
  pub free : GoodFree s'
  pub first : s'.first ≡ s.first

visible-set :
    (b : Bool) (o : Option ℕ) → visible (if b then some 0 else o) ≡ (if b then none else visible o)
visible-set true o = refl
visible-set false o = refl

pub GoodFree-push :
    (s s' : Space) (f : ℕ)
    → s'.first ≡ s.first
    → s'.free ≡ f ∷ s.free
    → GoodFrame s f
    → GoodFree s
    → GoodFree s'
GoodFree-push s s' f e l g h =
    subst (All (GoodFrame s')) (sym l)
      (move f g, All-map (GoodFrame s) (GoodFrame s') s.free (λ x y. move x y) h)
  where
    move : (x : ℕ) → GoodFrame s x → GoodFrame s' x
    move x (lo, hi) = (subst (λ n. n ≤ x) (sym e) lo, hi)

pub GoodFree-rest :
    (s s' : Space) → s'.first ≡ s.first → s'.free ≡ s.free → GoodFree s → GoodFree s'
GoodFree-rest s s' e l h =
    subst (All (GoodFrame s')) (sym l)
      (All-map (GoodFrame s) (GoodFrame s') s.free (λ x y. (subst (λ n. n ≤ x) (sym e) y.0, y.1)) h)

entry-kfree :
    (j f : ℕ) (s : Space) → entry j (record (fill f 1 s) { free = f ∷ s.free }) ≡ entry j s
unfolding entry
entry-kfree j f s = refl

pub free_page-FreedPage :
    (k w : ℕ) (s : Space)
    → 0 < s.first
    → GoodFree s
    → entry k s ≡ some w
    → (in_use w ≡ true → GoodFrame s (pte_page w))
    → Returns (λ _ s'. FreedPage k s s') (free_page k w s)
unfolding free_page
free_page-FreedPage k w s pos free e own = elim (Bool-cases (in_use w)) [
  | inr u ↦ rw u (record {
    mapping = λ j. elim (Bool-cases (j == k)) [
      | inl q ↦ rw q (ap visible (at j q) ∙ rw u refl)
      | inr q ↦ rw q refl
    ];
    free = free;
    first = refl;
  })
  | inl u ↦
      let g = own u in
      let nonzero : (pte_page w == 0) ≡ false = ground arith in
      let inside : (ltb (pte_page w) s.first || leb phystop (pte_page w)) ≡ false = ground arith in
      rw (u, nonzero, inside)
        (record {
          mapping = λ j.
              ap visible (entry-set_entry j k w 0 (freed w) (entry-kfree k (pte_page w) s ∙ e))
              ∙ visible-set (j == k) (entry j (freed w))
              ∙ ap (λ o. if j == k then none else visible o) (entry-kfree j (pte_page w) s);
          free =
              GoodFree-push s (set_entry k 0 (freed w)) (pte_page w)
                (set_entry-rest k 0 (freed w)).1 (set_entry-rest k 0 (freed w)).0 g free;
          first = (set_entry-rest k 0 (freed w)).1;
        })
]
  where
    freed : ℕ → Space
    freed w = record (fill (pte_page w) 1 s) { free = pte_page w ∷ s.free }

    at : (j : ℕ) → (j == k) ≡ true → entry j s ≡ some w
    at j q = subst (λ i. entry i s ≡ some w) (ground arith) e
