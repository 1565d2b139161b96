-- ===== src/Vm/Space/Fork/Copied.antt =====
-- The pages that the loop of `copyuvm` of p6/vm.c has copied.
use cs537_spring.Prelude.{
  ℕ, ◌+◌, ◌%◌, ◌≡◌, ◌≢◌, ◌≤◌, ◌<◌, refl, arith, ap, sym, ◌∙◌, subst, true, false, not, none, some,
  List, All, ◌∷◌, update, ◌==◌, ==_iff, Bool-cases, inl, inr,
}
use cs537_spring.Vm.Word.{has, pte_p, pte_e, pte_page}
use cs537_spring.Vm.Crypt.{kernbase}
use cs537_spring.Vm.Space.{Space, entry, in_use, new_entry, round_up}
use cs537_spring.Vm.Space.Entry.{visible, GoodFrame, GoodFree}
use cs537_spring.Vm.Space.Alloc.{MapStep}
use cs537_spring.Vm.Space.Fork.{Directory, lookup, copy_page}
use cs537_spring.Vm.Space.Fork.Keep.{
  Keep-refl, update_other, Out, Distinct, GoodTables, GoodFrame-move, Keep, Keep-trans, Keep-took,
}

-- The flags of an entry in use, for another frame.
pub in_use-new_entry : (f w : ℕ) → in_use w ≡ true → in_use (new_entry f (w % 4096)) ≡ true
unfolding new_entry
in_use-new_entry f w h = ground arith

pub pte_page-new_entry : (f w : ℕ) → pte_page (new_entry f (w % 4096)) ≡ f
unfolding new_entry
pte_page-new_entry f w = ground arith

-- The flags are the same, if the entry is either present or encrypted.
pub new_entry-flags :
    (f w : ℕ) → has pte_p w ≡ not (has pte_e w) → new_entry f (w % 4096) % 4096 ≡ w % 4096
unfolding new_entry
new_entry-flags f w h = ground arith

-- The parent's pages up to `n` are in use, and their frames are not free.
abbrev pub Parent : Directory → ℕ → Space → Type 0
Parent pgdir n s =
    (j : ℕ)
    → j < n
    → (w : ℕ) × (lookup pgdir j ≡ some w) × (in_use w ≡ true) × Out (pte_page w) s.free

-- Page `j` is mapped to a frame that was free, with the flags of `w` and the bytes of its frame.
pub record CopyOf (j w : ℕ) (s s₁ : Space) : Type 0 where
  pub frame : ℕ
  pub mapped : visible (entry j s₁) ≡ some (new_entry frame (w % 4096))
  pub good : GoodFrame s₁ frame
  pub out : Out frame s₁.free
  pub fresh : (g : ℕ) → Out g s.free → frame ≢ g
  pub bytes : s₁.mem frame ≡ s.mem (pte_page w)

-- The pages up to `k` are copies, in frames of their own, and the other pages are mapped as before.
pub record Copied (pgdir : Directory) (k : ℕ) (s s₁ : Space) : Type 0 where
  pub pages : (j w : ℕ) → j < k → lookup pgdir j ≡ some w → CopyOf j w s s₁
  pub apart :
      (i j v w : ℕ)
      → i < j
      → j < k
      → visible (entry i s₁) ≡ some v
      → visible (entry j s₁) ≡ some w
      → pte_page v ≢ pte_page w
  pub others : (j : ℕ) → k ≤ j → visible (entry j s₁) ≡ visible (entry j s)
  pub keep : Keep s s₁
  pub first : s₁.first ≡ s.first
  pub free : GoodFree s₁

-- The directory has no user pages, and its frames and those of the free list are good.
pub record Fresh (s : Space) : Type 0 where
  pub empty : (j : ℕ) → j < round_up kernbase → visible (entry j s) ≡ none
  pub free : GoodFree s
  pub tables : GoodTables s
  pub distinct : Distinct s.free

pub Copied-start : (pgdir : Directory) (s : Space) → Fresh s → Copied pgdir 0 s s
Copied-start pgdir s h = record {
  pages = λ j w l e. absurd (omega arith);
  apart = λ i j v w l m e f. absurd (omega arith);
  others = λ j l. refl;
  keep = Keep-refl s;
  first = refl;
  free = h.free;
}

-- The state in which the frame `f` has been taken and written.
abbrev pub filled : ℕ → List ℕ → ℕ → Space → Space
filled f fs w s = copy_page f (pte_page w) (record s { free = fs })

pub entry-filled : (j f w : ℕ) (fs : List ℕ) (s : Space) → entry j (filled f fs w s) ≡ entry j s
unfolding entry
entry-filled j f w fs s = refl

update_self : (f : ℕ) (m : ℕ → ℕ → ℕ) (p : ℕ → ℕ) → update m f p f ≡ p
update_self f m p = ground arith

pub some_inj : (a b : ℕ) → some a ≡ some b → a ≡ b
some_inj a b q = ground arith

pub Keep-filled :
    (f w : ℕ) (fs : List ℕ) (s₁ s₂ : Space)
    → s₁.free ≡ f ∷ fs
    → Keep (filled f fs w s₁) s₂
    → Keep s₁ s₂
Keep-filled f w fs s₁ s₂ e q =
    Keep-trans s₁ (filled f fs w s₁) s₂
      (Keep-took f fs (update s₁.mem f (s₁.mem (pte_page w))) s₁ e
        λ g ne. update_other f g s₁.mem (s₁.mem (pte_page w)) ne)
      q

module _ (pgdir : Directory) (k f w : ℕ) (fs : List ℕ) (s s₁ s₂ : Space) (c : Copied pgdir k s s₁)
    (h : Fresh s) (e : s₁.free ≡ f ∷ fs) (l : lookup pgdir k ≡ some w)
    (src : Out (pte_page w) s.free) where
  -- The page that was copied last.
  last_page :
      MapStep (w % 4096) k f true (filled f fs w s₁) s₂
      → Keep (filled f fs w s₁) s₂
      → CopyOf k w s s₂
  last_page m q = record {
    frame = f;
    mapped = m.mapping k ∙ rw ((==_iff k k).1 refl) refl;
    good = GoodFrame-move s₁ s₂ f m.first (subst (All (GoodFrame s₁)) e c.free).0;
    out = q.out f outside;
    fresh = λ g o. (subst (Out g) e (c.keep.out g o)).0;
    bytes =
        q.bytes f outside
        ∙ update_self f s₁.mem (s₁.mem (pte_page w))
        ∙ c.keep.bytes (pte_page w) src;
  }
    where
      outside : Out f fs
      outside = (subst Distinct e (c.keep.distinct h.distinct)).0

  -- The earlier pages.
  earlier :
      (j v : ℕ)
      → j < k
      → CopyOf j v s s₁
      → MapStep (w % 4096) k f true (filled f fs w s₁) s₂
      → Keep (filled f fs w s₁) s₂
      → CopyOf j v s s₂
  earlier j v lt p m q =
      let kept = Keep-filled f w fs s₁ s₂ e q in
      let ne : (j == k) ≡ false = ground arith in
      record {
        frame = p.frame;
        mapped = m.mapping j ∙ rw (ne, entry-filled j f w fs s₁) p.mapped;
        good = GoodFrame-move s₁ s₂ p.frame m.first p.good;
        out = kept.out p.frame p.out;
        fresh = p.fresh;
        bytes = kept.bytes p.frame p.out ∙ p.bytes;
      }

  -- A mapping of another page.
  other_page :
      (j : ℕ)
      → j ≢ k
      → MapStep (w % 4096) k f true (filled f fs w s₁) s₂
      → visible (entry j s₂) ≡ visible (entry j s₁)
  other_page j ne m =
      let no_page : (j == k) ≡ false = ground (arith, ne) in
      m.mapping j ∙ rw (no_page, entry-filled j f w fs s₁) refl

  -- The frame of a copy, as its entry shows it.
  frame_shown :
      (j u v : ℕ) (t : Space) (p : CopyOf j u s t)
      → visible (entry j t) ≡ some v
      → pte_page v ≡ p.frame
  frame_shown j u v t p at =
      ap pte_page (some_inj v (new_entry p.frame (u % 4096)) (sym at ∙ p.mapped))
      ∙ pte_page-new_entry p.frame u

  apart_from_last :
      (i u v : ℕ) → i < k → CopyOf i u s s₁ → visible (entry i s₁) ≡ some v → pte_page v ≢ f
  apart_from_last i u v lt p at same =
      (subst (Out p.frame) e p.out).0 (sym same ∙ frame_shown i u v s₁ p at)

  -- One more page.
  pub Copied-step :
      (n : ℕ)
      → k < n
      → Parent pgdir n s
      → MapStep (w % 4096) k f true (filled f fs w s₁) s₂
      → Keep (filled f fs w s₁) s₂
      → Copied pgdir (k + 1) s s₂
  unfolding last_page
  Copied-step n inside parent m q = record {
    pages = λ j v lt at. elim (Bool-cases (j == k)) [
      | inl y ↦ copy_at j v (ground arith) at
      | inr y ↦ earlier j v (ground arith) (c.pages j v (ground arith) at) m q
    ];
    apart = λ i j v v' lt lt' at at'. elim (Bool-cases (j == k)) [
      | inl y ↦ last_apart i j v v' (ground arith) lt at at'
      | inr y ↦
          c.apart i j v v' lt (ground arith) (sym (other_page i (omega arith) m) ∙ at)
            (sym (other_page j (ground arith) m) ∙ at')
    ];
    others = λ j lo. other_page j (omega arith) m ∙ c.others j (omega arith);
    keep = Keep-trans s s₁ s₂ c.keep (Keep-filled f w fs s₁ s₂ e q);
    first = m.first ∙ c.first;
    free = m.free;
  }
    where
      copy_at : (j v : ℕ) → j ≡ k → lookup pgdir j ≡ some v → CopyOf j v s s₂
      copy_at j v y at =
          let same : v ≡ w = some_inj v w (sym at ∙ ap (lookup pgdir) y ∙ l) in
          subst (λ i. CopyOf i v s s₂) (sym y)
            (subst (λ u. CopyOf k u s s₂) (sym same) (last_page m q))

      last_apart :
          (i j v v' : ℕ)
          → j ≡ k
          → i < j
          → visible (entry i s₂) ≡ some v
          → visible (entry j s₂) ≡ some v'
          → pte_page v ≢ pte_page v'
      last_apart i j v v' y lt at at' same =
          let (u, found, used, o) = parent i (omega arith) in
          apart_from_last i u v (omega arith) (c.pages i u (omega arith) found)
            (sym (other_page i (omega arith) m) ∙ at)
            (same
              ∙ frame_shown k w v' s₂ (last_page m q)
                  (subst (λ x. visible (entry x s₂) ≡ some v') y at'))
