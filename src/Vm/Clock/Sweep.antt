-- ===== src/Vm/Clock/Sweep.antt =====
-- The loop of `wsetinsert`, by the number of referenced pages in the queue.
use cs537_spring.Prelude.{
  ℕ, zero, suc, ◌+◌, ◌≡◌, ◌≢◌, ◌<◌, ◌≤◌, refl, true, false, arith, if◌then◌else◌, some, none,
  Option, ℤ, pos, ap, sym, subst, ◌∙◌, Bool-cases, inl, inr, update, ◌==◌, not,
}
use native.Mathlib.Decide.{ℕ_discrete}
use cs537_spring.Vm.Word.{
  has, pte_a, pte_w, pte_u, Sealed, pte_page, clear_flag, clear_a-Unreferenced,
}
use cs537_spring.Vm.Machine.{
  Machine, clocksize, empty_slot, load_pte, store_pte, same_entry, SameRest, store-SameRest,
  Returns, Returns-mono, Command,
}
use cs537_spring.Vm.Crypt.Flip.{complement}
use cs537_spring.Vm.Crypt.Pages.{Encrypted}
use cs537_spring.Vm.Crypt.Range.{mencrypt-one}
use cs537_spring.Vm.Clock.{evict, wsetinsert, insert_fuel}
use cs537_spring.Vm.Clock.Resident.{
  ResidentPage, Occupied, IsResident, Kept, Kept-trans, ResidentPage-Kept, Kept-clear,
  IsResident-Kept,
}
use cs537_spring.Vm.Clock.Insert.{
  Inserted, Insertable, moved, Kept-moved, Inserted-filled, Inserted-evicted,
}

-- The reference bit of an entry, as a number.
abbrev a_bit : Option ℕ → ℕ
a_bit none = 0
a_bit (some w) = if has pte_a w then 1 else 0

abbrev slot_a : Machine → ℕ → ℕ
slot_a m s = if m.clockqueue s == empty_slot then 0 else a_bit (load_pte (m.clockqueue s) m)

-- The slots below `n` whose pages are referenced.
count_a : ℕ → Machine → ℕ
count_a zero m = 0
count_a (suc n) m = slot_a m n + count_a n m

a_bit-le : (o : Option ℕ) → a_bit o ≤ 1
a_bit-le none = omega arith
a_bit-le (some w) = ground arith

count_a-le_size : (n : ℕ) (m : Machine) → count_a n m ≤ n
unfolding count_a
count_a-le_size zero m = omega arith
count_a-le_size (suc n) m =
    ground (arith, a_bit-le (load_pte (m.clockqueue n) m), count_a-le_size n m)

count_a-le :
    (n : ℕ) (m m₁ : Machine) → ((s : ℕ) → slot_a m₁ s ≤ slot_a m s) → count_a n m₁ ≤ count_a n m
unfolding count_a
count_a-le zero m m₁ h = omega arith
count_a-le (suc n) m m₁ h = omega (arith, h n, count_a-le n m m₁ h)

count_a-lt :
    (n : ℕ) (m m₁ : Machine) (s : ℕ)
    → s < n
    → ((t : ℕ) → slot_a m₁ t ≤ slot_a m t)
    → slot_a m₁ s < slot_a m s
    → count_a n m₁ < count_a n m
unfolding count_a
count_a-lt zero m m₁ s l h d = absurd (omega arith)
count_a-lt (suc n) m m₁ s l h d = elim (ℕ_discrete s n) [
  | yes e ↦ omega (arith, count_a-le n m m₁ h, subst (λ t. slot_a m₁ t < slot_a m t) e d)
  | no ne ↦ omega (arith, h n, count_a-lt n m m₁ s (omega arith) h d)
]

-- The state after a turn that clears the reference bit of the page at the hand.
abbrev cleared : Machine → ℕ → ℕ → ℕ → Machine
cleared m h q w = store_pte q (clear_flag pte_a w) (moved m h)

load-cleared :
    (m : Machine) (h q w b : ℕ)
    → load_pte q m ≡ some w
    → load_pte b (cleared m h q w)
      ≡ (if same_entry q b then some (clear_flag pte_a w) else load_pte b m)
unfolding load_pte store_pte
load-cleared m h q w b l = ground arith

slot_a-cleared :
    (m : Machine) (h q w t : ℕ) → load_pte q m ≡ some w → slot_a (cleared m h q w) t ≤ slot_a m t
slot_a-cleared m h q w t l =
    let same =
      ap (λ (f : ℕ → ℕ). f t) (store-SameRest q (clear_flag pte_a w) (moved m h)).clockqueue in
    ground (arith, same, load-cleared m h q w (m.clockqueue t) l, (clear_a-Unreferenced w).cleared)

slot_a-lt :
    (m : Machine) (h w : ℕ)
    → Occupied m h
    → load_pte (m.clockqueue h) m ≡ some w
    → has pte_a w ≡ true
    → slot_a (cleared m h (m.clockqueue h) w) h < slot_a m h
slot_a-lt m h w o l a =
    let q = m.clockqueue h in
    let same =
      ap (λ (f : ℕ → ℕ). f h) (store-SameRest q (clear_flag pte_a w) (moved m h)).clockqueue in
    ground (arith, same, load-cleared m h q w q l, (clear_a-Unreferenced w).cleared)

load-moved : (m : Machine) (h q w : ℕ) → load_pte q m ≡ some w → load_pte q (moved m h) ≡ some w
unfolding load_pte
load-moved m h q w l = l

Kept-cleared : (m : Machine) (h q w b : ℕ) → load_pte q m ≡ some w → Kept m (cleared m h q w) b
Kept-cleared m h q w b l =
    Kept-trans m (moved m h) (cleared m h q w) b (Kept-moved m h b)
      (Kept-clear q w (moved m h) b (load-moved m h q w l))

writable-clear : (w : ℕ) → has pte_w (clear_flag pte_a w) ≡ has pte_w w
writable-clear w = ground arith

-- An entry that was sealed after its reference bit had been cleared.
Sealed-before :
    (w v w₁ v₁ : ℕ)
    → v ≡ w₁
    → clear_flag pte_a v ≡ clear_flag pte_a w
    → has pte_u v ≡ has pte_u w
    → pte_page v ≡ pte_page w
    → Sealed w₁ v₁
    → Sealed w v₁
Sealed-before w v w₁ v₁ same c u n s = record {
  encrypted = s.encrypted;
  absent = s.absent;
  unreferenced = s.unreferenced;
  user = s.user ∙ ap (has pte_u) (sym same) ∙ u;
  writable =
      s.writable
      ∙ ap (has pte_w) (sym same)
      ∙ sym (writable-clear v)
      ∙ ap (has pte_w) c
      ∙ writable-clear w;
  page = s.page ∙ ap pte_page (sym same) ∙ n;
}

-- The insertion into a state with a reference bit cleared is one into the state before.
Inserted-cleared :
    (m m₁ m' : Machine) (va : ℕ)
    → m₁.clockqueue ≡ m.clockqueue
    → m₁.mem ≡ m.mem
    → ((b : ℕ) → Kept m m₁ b)
    → IsResident m
    → Inserted m₁ va m'
    → Inserted m va m'
Inserted-cleared m m₁ m' va eq em k r i = record {
  slot = i.slot;
  in_range = i.in_range;
  hand = i.hand;
  queue = i.queue ∙ ap (λ q. update q i.slot va) eq;
  resident = i.resident;
  kept = λ b n.
      Kept-trans m m₁ m' b (k b)
        (i.kept b λ o. subst (λ q. same_entry q b ≡ false) (sym at) (n (back o)));
  victim = λ o. subst (Encrypted m') at (i.victim (forth o));
  victim_entry = λ o.
      let p = r.pages i.slot i.in_range o in
      let (w₁, v₁, l₁, l', s) = i.victim_entry (forth o) in
      let (v, l, e, q, u, n, c) = k (m.clockqueue i.slot) p.entry p.loaded in
      let same : v ≡ w₁ = ground (arith, ap (λ q. load_pte q m₁) at) in
      (
        p.entry,
        v₁,
        p.loaded,
        ap (λ q. load_pte q m') (sym at) ∙ l',
        Sealed-before p.entry v w₁ v₁ same c u n s,
      );
  mem_filled = λ e. i.mem_filled (subst (λ q. (q == empty_slot) ≡ true) (sym at) e) ∙ em;
  mem_evicted = λ o.
      let p = r.pages i.slot i.in_range o in
      let (w₁, l₁, e₁) = i.mem_evicted (forth o) in
      let (v, l, _, _, _, n, _) = k (m.clockqueue i.slot) p.entry p.loaded in
      let same : v ≡ w₁ = ground (arith, ap (λ q. load_pte q m₁) at) in
      let page : pte_page w₁ ≡ pte_page p.entry = ap pte_page (sym same) ∙ n in
      (
        p.entry,
        p.loaded,
        e₁
            ∙ ap (λ f. update f (pte_page w₁) (complement (f (pte_page w₁)))) em
            ∙ ap (λ g. update m.mem g (complement (m.mem g))) page,
      );
}
  where
    at : m₁.clockqueue i.slot ≡ m.clockqueue i.slot
    at = ap (λ (f : ℕ → ℕ). f i.slot) eq

    back : Occupied m₁ i.slot → Occupied m i.slot
    back o = subst (λ q. (q == empty_slot) ≡ false) at o

    forth : Occupied m i.slot → Occupied m₁ i.slot
    forth o = subst (λ q. (q == empty_slot) ≡ false) (sym at) o

evict-Inserted :
    (m : Machine) (h va : ℕ) (p : ResidentPage m (m.clockqueue h))
    → IsResident m
    → h < clocksize
    → Occupied m h
    → Insertable m va
    → Returns (λ r m'. (r ≡ pos 0) × Inserted m va m') (evict h va (moved m h))
unfolding evict
evict-Inserted m h va p r lt o ins =
    rw
      (mencrypt-one (m.clockqueue h) p.entry (moved m h) p.aligned
        (load-moved m h (m.clockqueue h) p.entry p.loaded) p.present p.plain p.user)
      (refl, Inserted-evicted m h va p r lt o ins)

-- A turn that clears a reference bit, followed by turns that insert.
clear-Inserted :
    (m : Machine) (h va : ℕ) (p : ResidentPage m (m.clockqueue h)) (rest : Command ℤ)
    → IsResident m
    → h < clocksize
    → Insertable m va
    → (IsResident (cleared m h (m.clockqueue h) p.entry)
        → Insertable (cleared m h (m.clockqueue h) p.entry) va
        → Returns
            (λ r m'. (r ≡ pos 0) × Inserted (cleared m h (m.clockqueue h) p.entry) va m')
            (rest (cleared m h (m.clockqueue h) p.entry)))
    → Returns (λ r m'. (r ≡ pos 0) × Inserted m va m') (rest (cleared m h (m.clockqueue h) p.entry))
clear-Inserted m h va p rest r lt (new, out) ih =
    Returns-mono _ _ (rest m₁)
      (ih (IsResident-Kept m m₁ h r lt same.clockqueue same.clockhand kept) (
        ResidentPage-Kept m m₁ va (kept va) new,
        λ s ls. subst (λ (q : ℕ → ℕ). q s ≢ va) (sym same.clockqueue) (out s ls),
      ))
      λ a m' (z, i). (z, Inserted-cleared m m₁ m' va same.clockqueue same.mem kept r i)
  where
    m₁ : Machine
    m₁ = cleared m h (m.clockqueue h) p.entry

    same : SameRest (moved m h) m₁
    same = store-SameRest (m.clockqueue h) (clear_flag pte_a p.entry) (moved m h)

    kept : (b : ℕ) → Kept m m₁ b
    kept b = Kept-cleared m h (m.clockqueue h) p.entry b p.loaded

-- One turn more than there are referenced pages in the queue is enough.
sweep-Inserted :
    (fuel : ℕ) (m : Machine) (va : ℕ)
    → IsResident m
    → Insertable m va
    → count_a clocksize m < fuel
    → Returns (λ r m'. (r ≡ pos 0) × Inserted m va m') (wsetinsert fuel va m)
unfolding wsetinsert
sweep-Inserted zero m va r ins c = absurd (omega arith)
sweep-Inserted (suc fuel) m va r ins c =
    let (h, lt, e) = r.hand in
    rw e (elim (Bool-cases (m.clockqueue h == empty_slot)) [
      | inl empty ↦ rw empty (refl, Inserted-filled m h va r lt empty ins)
      | inr o ↦
          let p = r.pages h lt o in
          rw (o, p.aligned, load-moved m h (m.clockqueue h) p.entry p.loaded)
            (elim (Bool-cases (has pte_a p.entry)) [
              | inr a ↦ rw a (evict-Inserted m h va p r lt o ins)
              | inl a ↦
                  subst
                    (λ b.
                      Returns (λ r m'. (r ≡ pos 0) × Inserted m va m')
                        (if not b
                          then evict h va (moved m h)
                          else wsetinsert fuel va (cleared m h (m.clockqueue h) p.entry)))
                    (sym a)
                    (clear-Inserted m h va p (wsetinsert fuel va) r lt ins λ r₁ ins₁.
                      sweep-Inserted fuel (cleared m h (m.clockqueue h) p.entry) va r₁ ins₁
                        (fewer h p.entry lt o p.loaded a))
            ])
    ])
  where
    fewer :
        (h w : ℕ)
        → h < clocksize
        → Occupied m h
        → load_pte (m.clockqueue h) m ≡ some w
        → has pte_a w ≡ true
        → count_a clocksize (cleared m h (m.clockqueue h) w) < fuel
    fewer h w lt o l a = omega (
      arith,
      count_a-lt clocksize m (cleared m h (m.clockqueue h) w) h lt
          (λ t. slot_a-cleared m h (m.clockqueue h) w t l) (slot_a-lt m h w o l a),
    )

-- If the working set satisfies its invariant and the page at `va` is decrypted and not in it,
-- nine turns of `wsetinsert` are enough to return 0. The page is then in the slot at the hand, the
-- invariant holds, and every other entry is as before but for its reference bit. A page that was
-- in the slot is encrypted, not present and not referenced, and its user and write flags and its
-- physical page are as before; each of the 4096 bytes of its physical page is replaced by its
-- complement, 255 minus the byte, and no other memory is changed. If the slot was empty, no memory
-- is.
pub wsetinsert-Inserted :
    (m : Machine) (va : ℕ)
    → IsResident m
    → Insertable m va
    → Returns (λ r m'. (r ≡ pos 0) × Inserted m va m') (wsetinsert insert_fuel va m)
wsetinsert-Inserted m va r ins =
    sweep-Inserted insert_fuel m va r ins (omega (arith, count_a-le_size clocksize m))
