-- ===== src/Vm/Space/Fork/Keep.antt =====
-- What commands of p6/vm.c that free nothing keep: frames outside the free list, and the frames of
-- the page tables.
use cs537_spring.Prelude.{
  Option-cases, ℕ, ◌/◌, ◌≡◌, ◌≢◌, ◌≤◌, refl, arith, ap, sym, ◌∙◌, subst, Bool, true, false, not,
  Option, none, some, List, All, [], ◌∷◌, update, ◌==◌, if◌then◌else◌, Bool-cases, inl, inr,
}
use cs537_spring.Vm.Space.{
  Space, Result, ok, panic, Command, Returns, and_then, fill, kalloc_from, new_table, walk_from,
  walk, entry, set_entry, is_used, new_entry, map_page,
}
use cs537_spring.Vm.Space.FreePage.{GoodFree-rest}
use cs537_spring.Vm.Space.Entry.{GoodFrame, GoodFree, set_entry-rest}

-- Partial correctness of a command.
abbrev pub Ensures : {A : Type 0} → (A → Space → Type 0) → Result A → Type 0
Ensures P (ok a s) = P a s
Ensures P panic = Unit

pub Ensures-bind :
    {A B : Type 0} (P : A → Space → Type 0) (Q : B → Space → Type 0) (r : Result A)
    (f : A → Command B)
    → Ensures P r
    → ((a : A) (s : Space) → P a s → Ensures Q (f a s))
    → Ensures Q (and_then r f)
Ensures-bind P Q (ok a s) f h next = next a s h
Ensures-bind P Q panic f h next = tt

pub Ensures-mono :
    {A : Type 0} (P Q : A → Space → Type 0) (r : Result A)
    → Ensures P r
    → ((a : A) (s : Space) → P a s → Q a s)
    → Ensures Q r
Ensures-mono P Q (ok a s) h weaken = weaken a s h
Ensures-mono P Q panic h weaken = tt

pub Ensures-and :
    {A : Type 0} (P Q : A → Space → Type 0) (r : Result A)
    → Ensures P r
    → Ensures Q r
    → Ensures (λ a s. P a s × Q a s) r
Ensures-and P Q (ok a s) h k = (h, k)
Ensures-and P Q panic h k = tt

pub Returns-and :
    {A : Type 0} (P Q : A → Space → Type 0) (r : Result A)
    → Returns P r
    → Ensures Q r
    → Returns (λ a s. P a s × Q a s) r
Returns-and P Q (ok a s) h k = (h, k)
Returns-and P Q panic h k = absurd h

-- A frame is not in a list, and no frame is in it twice.
abbrev pub Out : ℕ → List ℕ → Type 0
Out g = All (λ x. x ≢ g)

abbrev pub Distinct : List ℕ → Type 0
Distinct [] = Unit
Distinct (x ∷ xs) = Out x xs × Distinct xs

-- The frames of the page tables may be freed.
abbrev pub GoodTables : Space → Type 0
GoodTables s = (i : ℕ) (table : ℕ → ℕ) → s.dir i ≡ some table → GoodFrame s (s.tables i)

pub record Keep (s s' : Space) : Type 0 where
  pub bytes : (g : ℕ) → Out g s.free → s'.mem g ≡ s.mem g
  pub out : (g : ℕ) → Out g s.free → Out g s'.free
  pub distinct : Distinct s.free → Distinct s'.free
  pub tables : GoodFree s → GoodTables s → GoodTables s'
  pub free : GoodFree s → GoodFree s'

pub Keep-refl : (s : Space) → Keep s s
Keep-refl s = record {
  bytes = λ g o. refl;
  out = λ g o. o;
  distinct = λ d. d;
  tables = λ f t. t;
  free = λ f. f;
}

pub Keep-trans : (s s₁ s₂ : Space) → Keep s s₁ → Keep s₁ s₂ → Keep s s₂
Keep-trans s s₁ s₂ a b = record {
  bytes = λ g o. b.bytes g (a.out g o) ∙ a.bytes g o;
  out = λ g o. b.out g (a.out g o);
  distinct = λ d. b.distinct (a.distinct d);
  tables = λ f t. b.tables (a.free f) (a.tables f t);
  free = λ f. b.free (a.free f);
}

-- The state with the first frame `f` of the free list taken and written.
abbrev pub took : List ℕ → (ℕ → ℕ → ℕ) → Space → Space
took fs m s = record s { free = fs; mem = m }

pub Keep-took :
    (f : ℕ) (fs : List ℕ) (m : ℕ → ℕ → ℕ) (s : Space)
    → s.free ≡ f ∷ fs
    → ((g : ℕ) → f ≢ g → m g ≡ s.mem g)
    → Keep s (took fs m s)
Keep-took f fs m s e same = record {
  bytes = λ g o. same g (subst (Out g) e o).0;
  out = λ g o. (subst (Out g) e o).1;
  distinct = λ d. (subst Distinct e d).1;
  tables = λ h t. t;
  free = λ h. (subst (All (GoodFrame s)) e h).1;
}

-- The same, where the frame becomes the page table of page `k`.
abbrev pub made_table : ℕ → ℕ → List ℕ → Space → Space
made_table k f fs s = record (fill f 0 (record s { free = fs })) {
  dir = update s.dir (k / 1024) (some (λ i. 0));
  tables = update s.tables (k / 1024) f;
}

pub update_other : (f g : ℕ) (m : ℕ → ℕ → ℕ) (p : ℕ → ℕ) → f ≢ g → update m f p g ≡ m g
update_other f g m p h = ground arith

Keep-made_table :
    (k f : ℕ) (fs : List ℕ) (s : Space) → s.free ≡ f ∷ fs → Keep s (made_table k f fs s)
Keep-made_table k f fs s e = record {
  bytes = λ g o. update_other f g s.mem (λ j. 0) (subst (Out g) e o).0;
  out = λ g o. (subst (Out g) e o).1;
  distinct = λ d. (subst Distinct e d).1;
  tables = λ h t. tables h t;
  free = λ h. (subst (All (GoodFrame s)) e h).1;
}
  where
    tables : GoodFree s → GoodTables s → GoodTables (made_table k f fs s)
    tables h t i table at = elim (Bool-cases (i == k / 1024)) [
      | inl y ↦ subst (GoodFrame s) (sym (hit y)) (subst (All (GoodFrame s)) e h).0
      | inr n ↦ subst (GoodFrame s) (sym (miss n)) (t i table (sym (other n) ∙ at))
    ]
      where
        hit : (i == k / 1024) ≡ true → update s.tables (k / 1024) f i ≡ f
        hit y = ground (arith, y)

        miss : (i == k / 1024) ≡ false → update s.tables (k / 1024) f i ≡ s.tables i
        miss n = ground (arith, n)

        other : (i == k / 1024) ≡ false → update s.dir (k / 1024) (some (λ j. 0)) i ≡ s.dir i
        other n = ground (arith, n)

walk_from-Keep :
    (k : ℕ) (s : Space) (o : Option (ℕ → ℕ)) (fs : List ℕ)
    → s.free ≡ fs
    → Ensures (λ b s'. Keep s s') (walk_from k s o)
walk_from-Keep k s (some table) fs l = Keep-refl s
walk_from-Keep k s none [] l =
    subst (λ xs. Ensures (λ b s'. Keep s s') (and_then (kalloc_from s xs) (new_table k))) (sym l)
      (Keep-refl s)
walk_from-Keep k s none (f ∷ fs) l =
    subst (λ xs. Ensures (λ b s'. Keep s s') (and_then (kalloc_from s xs) (new_table k))) (sym l)
      (Keep-made_table k f fs s l)

set_entry-dir :
    (k w i : ℕ) (table : ℕ → ℕ) (s : Space)
    → (set_entry k w s).dir i ≡ some table
    → (t : ℕ → ℕ) × (s.dir i ≡ some t)
unfolding set_entry
set_entry-dir k w i table s e = elim (Option-cases (s.dir (k / 1024))) [
  | inl n ↦ (table, ground (arith, e, n))
  | inr (t, y) ↦ elim (Bool-cases (i == k / 1024)) [
    | inl q ↦ (t, ground (arith, y, q))
    | inr q ↦ (table, ground (arith, e, y, q))
  ]
]

set_entry-tables : (k w : ℕ) (s : Space) → (set_entry k w s).tables ≡ s.tables
unfolding set_entry
set_entry-tables k w s = ground arith

pub GoodFrame-move : (s s' : Space) (f : ℕ) → s'.first ≡ s.first → GoodFrame s f → GoodFrame s' f
GoodFrame-move s s' f e (lo, hi) = (subst (λ n. n ≤ f) (sym e) lo, hi)

pub GoodTables-set_entry : (k w : ℕ) (s : Space) → GoodTables s → GoodTables (set_entry k w s)
GoodTables-set_entry k w s t i table at =
    let (old, e) = set_entry-dir k w i table s at in
    subst (GoodFrame (set_entry k w s)) (sym (ap (λ f. f i) (set_entry-tables k w s)))
      (GoodFrame-move s (set_entry k w s) (s.tables i) (set_entry-rest k w s).1 (t i old e))

Keep-set_entry : (k w : ℕ) (s : Space) → Keep s (set_entry k w s)
Keep-set_entry k w s = record {
  bytes = λ g o. ap (λ m. m g) rest.2;
  out = λ g o. subst (Out g) (sym rest.0) o;
  distinct = λ d. subst Distinct (sym rest.0) d;
  tables = λ h t. GoodTables-set_entry k w s t;
  free = GoodFree-rest s (set_entry k w s) rest.1 rest.0;
}
  where
    rest :
        ((set_entry k w s).free ≡ s.free)
        × ((set_entry k w s).first ≡ s.first)
        × ((set_entry k w s).mem ≡ s.mem)
    rest = set_entry-rest k w s

pub map_page-Keep : (k f perm : ℕ) (s : Space) → Ensures (λ b s'. Keep s s') (map_page k f perm s)
unfolding map_page walk
map_page-Keep k f perm s =
    Ensures-bind (λ b s'. Keep s s') _ (walk k s) _
      (walk_from-Keep k s (s.dir (k / 1024)) s.free refl) next
  where
    next :
        (b : Bool) (s₁ : Space)
        → Keep s s₁
        → Ensures
            (λ b s'. Keep s s')
            (if not b
              then ok false s₁
              else if is_used (entry k s₁)
              then panic
              else ok true (set_entry k (new_entry f perm) s₁))
    next false s₁ h = h
    next true s₁ h = elim (Bool-cases (is_used (entry k s₁))) [
      | inl u ↦ rw u tt
      | inr u ↦ rw u (
          Keep-trans s s₁ (set_entry k (new_entry f perm) s₁) h
            (Keep-set_entry k (new_entry f perm) s₁))
    ]
