-- ===== src/Vm/Clock/Resident.antt =====
-- The invariant of the working set, and how the writes of `wsetinsert` keep it.
use cs537_spring.Prelude.{
  ℕ, ◌+◌, ◌%◌, ◌^◌, ◌≡◌, ◌≢◌, ◌<◌, refl, true, false, arith, some, pos, ap, sym, subst, ◌∙◌,
  Bool-cases, inl, inr, ◌==◌, ◌&&◌, if◌then◌else◌, ◌-◌,
}
use native.Mathlib.Decide.{ℕ_discrete}
use cs537_spring.Vm.Word.{
  has, pte_p, pte_u, pte_a, pte_e, pte_page, pground_down, clear_flag, clear_a-Unreferenced,
  eq_of_entry, pdx, ptx,
}
use cs537_spring.Vm.Machine.{
  Machine, clocksize, empty_slot, load_pte, store_pte, load-store, same_entry, load-same_entry,
}
use cs537_spring.Vm.Clock.{next_hand, put_page}

-- A page-aligned address whose entry is present, not encrypted, and a user's.
pub record ResidentPage (m : Machine) (a : ℕ) : Type 0 where
  pub aligned : pground_down a ≡ a
  pub small : a < 2 ^ 32
  pub entry : ℕ
  pub loaded : load_pte a m ≡ some entry
  pub present : has pte_p entry ≡ true
  pub plain : has pte_e entry ≡ false
  pub user : has pte_u entry ≡ true

abbrev pub Occupied : Machine → ℕ → Type 0
Occupied m s = (m.clockqueue s == empty_slot) ≡ false

-- Every page in the queue is decrypted, none is there twice, and the hand moves to a slot.
pub record IsResident (m : Machine) : Type 0 where
  pub pages : (s : ℕ) → s < clocksize → Occupied m s → ResidentPage m (m.clockqueue s)
  pub distinct :
      (s t : ℕ)
      → s < clocksize
      → t < clocksize
      → s ≢ t
      → Occupied m s
      → m.clockqueue s ≢ m.clockqueue t
  pub hand : (h : ℕ) × (h < clocksize) × (next_hand m.clockhand ≡ some h)

-- An entry keeps its page and its flags: with the reference bit cleared it is what it was.
abbrev pub Kept : Machine → Machine → ℕ → Type 0
Kept m m' b =
    (w : ℕ)
    → load_pte b m ≡ some w
    → (v : ℕ) × (load_pte b m' ≡ some v)
      × (has pte_e v ≡ has pte_e w)
      × (has pte_p v ≡ has pte_p w)
      × (has pte_u v ≡ has pte_u w)
      × (pte_page v ≡ pte_page w)
      × (clear_flag pte_a v ≡ clear_flag pte_a w)

pub Kept-refl : (m : Machine) (b : ℕ) → Kept m m b
Kept-refl m b w l = (w, l, refl, refl, refl, refl, refl)

pub Kept-trans : (m m₁ m' : Machine) (b : ℕ) → Kept m m₁ b → Kept m₁ m' b → Kept m m' b
Kept-trans m m₁ m' b f g w l =
    let (v, l₁, e, p, u, n, c) = f w l in
    let (v', l₂, e', p', u', n', c') = g v l₁ in (v', l₂, e' ∙ e, p' ∙ p, u' ∙ u, n' ∙ n, c' ∙ c)

pub ResidentPage-Kept :
    (m m' : Machine) (a : ℕ) → Kept m m' a → ResidentPage m a → ResidentPage m' a
ResidentPage-Kept m m' a k r =
    let (v, l, e, p, u, n, _) = k r.entry r.loaded in
    record {
      aligned = r.aligned;
      small = r.small;
      entry = v;
      loaded = l;
      present = p ∙ r.present;
      plain = e ∙ r.plain;
      user = u ∙ r.user;
    }

clear_twice :
    (w : ℕ)
    → has pte_a (clear_flag pte_a w) ≡ false
    → clear_flag pte_a (clear_flag pte_a w) ≡ clear_flag pte_a w
clear_twice w h = ap (λ b. if b then clear_flag pte_a w - pte_a else clear_flag pte_a w) h

-- Clearing a reference bit keeps every entry.
pub Kept-clear :
    (q w : ℕ) (m : Machine) (b : ℕ)
    → load_pte q m ≡ some w
    → Kept m (store_pte q (clear_flag pte_a w) m) b
Kept-clear q w m b l v lb = elim (Bool-cases (same_entry q b)) [
  | inl e ↦
      let c = clear_a-Unreferenced w in
      let same : w ≡ v = ground (arith, load-same_entry q b m) in
      (
        clear_flag pte_a w,
        rw (load-store q b (clear_flag pte_a w) w m l, e),
        c.encrypted ∙ ap (has pte_e) same,
        c.present ∙ ap (has pte_p) same,
        c.user ∙ ap (has pte_u) same,
        c.page ∙ ap pte_page same,
        clear_twice w c.cleared ∙ ap (clear_flag pte_a) same,
      )
  | inr e ↦ (v, rw (load-store q b (clear_flag pte_a w) w m l, e) lb, refl, refl, refl, refl, refl)
]

both_eq : (x y u v : ℕ) → ((x == y) && (u == v)) ≡ true → (x ≡ y) × (u ≡ v)
both_eq x y u v h = ground arith

-- Different pages have different entries.
pub entry_ne :
    (m m₁ : Machine) (a b : ℕ)
    → ResidentPage m a
    → ResidentPage m₁ b
    → a ≢ b
    → same_entry a b ≡ false
entry_ne m m₁ a b ra rb ne = elim (Bool-cases (same_entry a b)) [
  | inr e ↦ e
  | inl e ↦
      let (d, t) = both_eq (pdx a) (pdx b) (ptx a) (ptx b) e in
      absurd (ne (eq_of_entry a b ra.small rb.small ra.aligned rb.aligned d t))
]

-- Where every entry is kept and the queue stays, so does the invariant.
pub IsResident-Kept :
    (m m₁ : Machine) (h : ℕ)
    → IsResident m
    → h < clocksize
    → m₁.clockqueue ≡ m.clockqueue
    → m₁.clockhand ≡ pos h
    → ((b : ℕ) → Kept m m₁ b)
    → IsResident m₁
IsResident-Kept m m₁ h r lt eq hand kept = record {
  pages = λ s ls o.
      let same : m₁.clockqueue s ≡ m.clockqueue s = ap (λ (f : ℕ → ℕ). f s) eq in
      subst (ResidentPage m₁) (sym same) (
        ResidentPage-Kept m m₁ (m.clockqueue s) (kept (m.clockqueue s))
          (r.pages s ls (ground arith)));
  distinct = λ s t ls lt' ne o x.
      ground
        (arith, r.distinct s t ls lt' ne, ap (λ (f : ℕ → ℕ). f s) eq, ap (λ (f : ℕ → ℕ). f t) eq);
  hand = ((h + 1) % clocksize, omega arith, ap next_hand hand);
}

-- A page outside the queue, given to the slot that the hand is at, keeps the invariant. The other
-- slots hold resident pages still.
pub put_page-IsResident :
    (m m₁ : Machine) (h va : ℕ)
    → IsResident m
    → h < clocksize
    → m₁.clockqueue ≡ m.clockqueue
    → m₁.clockhand ≡ pos h
    → ((s : ℕ) → s < clocksize → s ≢ h → Occupied m s → ResidentPage m₁ (m.clockqueue s))
    → ResidentPage m₁ va
    → ((s : ℕ) → s < clocksize → m.clockqueue s ≢ va)
    → IsResident (put_page h va m₁)
unfolding load_pte
put_page-IsResident m m₁ h va r lt eq hand pages new out = record {
  pages = λ s ls o. elim (ℕ_discrete s h) [
    | yes e ↦
        let at : (put_page h va m₁).clockqueue s ≡ va = ground arith in
        subst (ResidentPage (put_page h va m₁)) (sym at) (moved va new)
    | no n ↦
        let same : m₁.clockqueue s ≡ m.clockqueue s = ap (λ (f : ℕ → ℕ). f s) eq in
        let at : (put_page h va m₁).clockqueue s ≡ m.clockqueue s = ground arith in
        subst (ResidentPage (put_page h va m₁)) (sym at)
          (moved (m.clockqueue s) (pages s ls n (ground arith)))
  ];
  distinct = λ s t ls lt' ne o x. ground (
    arith,
    out s ls,
    out t lt',
    r.distinct s t ls lt' ne,
    ap (λ (f : ℕ → ℕ). f s) eq,
    ap (λ (f : ℕ → ℕ). f t) eq,
  );
  hand = ((h + 1) % clocksize, omega arith, ap next_hand hand);
}
  where
    moved : (a : ℕ) → ResidentPage m₁ a → ResidentPage (put_page h va m₁) a
    moved a x =
        ResidentPage-Kept m₁ (put_page h va m₁) a (λ w l. (w, l, refl, refl, refl, refl, refl)) x
