-- ===== src/Vm/Clock/Delete.antt =====
-- `wsetdelete` of p6/vm.c: a page leaves the clock queue.
pub mod Loop
use native.Mathlib.Decide.{ℕ_discrete}
use cs537_spring.Prelude.{
  ◌⊎◌, update_self, update-ne, negsuc, update-ne, ℕ, zero, suc, ◌+◌, ◌-◌, ◌%◌, ◌≡◌, ◌≢◌, ◌≤◌, ◌<◌,
  refl, arith, ap, sym, subst, ◌∙◌, Bool, true, false, ltb, Option, Option-cases, none, some, ℤ,
  pos, minus_one, update, ◌==◌, if◌then◌else◌, Bool-cases, inl, inr,
}
use cs537_spring.Vm.Machine.{Machine, clocksize, empty_slot, load_pte, ok, fault, Returns}
use cs537_spring.Vm.Clock.{
  next_hand, later, find_slot, shift_from, shifted, delete_found, delete_at, wsetdelete,
}
use cs537_spring.Vm.Clock.Resident.{ResidentPage, ResidentPage-Kept, Kept, Occupied, IsResident}
use cs537_spring.Vm.Clock.Delete.Loop.{
  behind, source, target, source-small, target-small, source-ne, source-target, target-ne,
  source-injective, shift_from_lem, FoundSlot, find_slot-FoundSlot,
}

-- What a deletion has done.
pub record Deleted (va : ℕ) (m m' : Machine) : Type 0 where
  pub resident : IsResident m'
  pub gone : (s : ℕ) → s < clocksize → m'.clockqueue s ≢ va
  pub kept :
      (s : ℕ)
      → s < clocksize
      → m.clockqueue s ≢ va
      → (t : ℕ) × (t < clocksize) × (m'.clockqueue t ≡ m.clockqueue s)
  pub entries : m'.dir ≡ m.dir
  pub memory : m'.mem ≡ m.mem

-- The queue after the page in slot `i` has been deleted.
abbrev final : Machine → ℕ → ℕ → (ℕ → ℕ) → Machine
final m i h q = record m {
  clockqueue = update q h empty_slot;
  clockhand = if h == 0 then pos (clocksize - 1) else pos (h - 1);
}

Kept-final : (m : Machine) (i h : ℕ) (q : ℕ → ℕ) (b : ℕ) → Kept m (final m i h q) b
unfolding load_pte
Kept-final m i h q b w l = (w, l, refl, refl, refl, refl, refl)

module _ (m : Machine) (i h va : ℕ) (q : ℕ → ℕ) (li : i < 8) (lh : h < 8) (r : IsResident m)
    (not_empty : va ≢ empty_slot) (at : m.clockqueue i ≡ va)
    (values : (s : ℕ) → s < 8 → q s ≡ m.clockqueue (source i h s)) where
  -- A slot of the new queue holds what its source held, but for the slot of the hand.
  final-source :
      (s : ℕ) → s < 8 → s ≢ h → (final m i h q).clockqueue s ≡ m.clockqueue (source i h s)
  final-source s ls ne = update-ne q h s empty_slot (λ e. ne (sym e)) ∙ values s ls

  occupied : (s : ℕ) → s < 8 → Occupied (final m i h q) s → s ≢ h
  occupied s ls o e = true_false (
      ap (λ v. v == empty_slot) (sym (update_self q h empty_slot))
      ∙ ap (λ k. update q h empty_slot k == empty_slot) (sym e)
      ∙ o)
    where
      true_false : true ≡ false → ⊥
      true_false x = cc

  final-hand : (g : ℕ) × (g < clocksize) × (next_hand (final m i h q).clockhand ≡ some g)
  final-hand = elim (Bool-cases (h == 0)) [
    | inl z ↦ (0, omega arith, rw z refl)
    | inr z ↦ (h, lh, rw z (ap some {x = (h - 1 + 1) % 8} {y = h} (ground arith)))
  ]

  final-distinct :
      (s t : ℕ)
      → s < 8
      → t < 8
      → s ≢ t
      → Occupied (final m i h q) s
      → (final m i h q).clockqueue s ≢ (final m i h q).clockqueue t
  final-distinct s t ls lt ne o e =
      let ns = occupied s ls o in
      let nt = occupied t lt (ap (λ x. x == empty_slot) (sym e) ∙ o) in
      r.distinct (source i h s) (source i h t) (source-small i h s ls) (source-small i h t lt)
        (source-injective i h s t li lh ls lt ns nt ne)
        (ap (λ x. x == empty_slot) (sym (final-source s ls ns)) ∙ o)
        (sym (final-source s ls ns) ∙ e ∙ final-source t lt nt)

  final-gone : (s : ℕ) → s < 8 → (final m i h q).clockqueue s ≢ va
  final-gone s ls e = elim (ℕ_discrete s h) [
    | yes hand ↦ not_empty (sym e ∙ ap (update q h empty_slot) hand ∙ update_self q h empty_slot)
    | no ne ↦
        r.distinct (source i h s) i (source-small i h s ls) li (source-ne i h s li lh ls ne)
          (test (m.clockqueue (source i h s)) (sym (final-source s ls ne) ∙ e))
          (sym (final-source s ls ne) ∙ e ∙ sym at)
  ]
    where
      test : (x : ℕ) → x ≡ va → (x == empty_slot) ≡ false
      test x e = ground (arith, not_empty)

  final-kept :
      (s : ℕ)
      → s < 8
      → m.clockqueue s ≢ va
      → (t : ℕ) × (t < 8) × ((final m i h q).clockqueue t ≡ m.clockqueue s)
  final-kept s ls ne =
      let other : s ≢ i = λ e. ne (ap m.clockqueue e ∙ at) in
      (
        target i h s,
        target-small i h s ls,
        final-source (target i h s) (target-small i h s ls) (target-ne i h s li lh ls other)
            ∙ ap m.clockqueue (source-target i h s li lh ls other),
      )

  final-Deleted : Deleted va m (final m i h q)
  final-Deleted = record {
    resident = record {
      pages = λ s ls o.
          let ne = occupied s ls o in
          subst (ResidentPage (final m i h q)) (sym (final-source s ls ne)) (
            ResidentPage-Kept m (final m i h q) (m.clockqueue (source i h s))
              (Kept-final m i h q (m.clockqueue (source i h s)))
              (r.pages (source i h s) (source-small i h s ls)
                (ap (λ x. x == empty_slot) (sym (final-source s ls ne)) ∙ o)));
      distinct = final-distinct;
      hand = final-hand;
    };
    gone = final-gone;
    kept = final-kept;
    entries = refl;
    memory = refl;
  }

-- If the working set satisfies its invariant and the hand is at a slot, `wsetdelete` of an address
-- that is not the marker of an empty slot ends. If the address is in the queue, the result is 0,
-- the invariant holds, the address is not in the queue any more, and every other page still is.
-- If it is not, the result is -1 and nothing changes. With the hand before the first slot, the
-- slot before the array is read.
pub wsetdelete-Deleted :
    (va h : ℕ) (m : Machine)
    → IsResident m
    → m.clockhand ≡ pos h
    → h < clocksize
    → va ≢ empty_slot
    → Returns
        (λ r m'.
          ((r ≡ pos 0) × ((s : ℕ) × (s < clocksize) × (m.clockqueue s ≡ va)) × Deleted va m m')
          ⊎ ((r ≡ minus_one) × ((s : ℕ) → s < clocksize → m.clockqueue s ≢ va) × (m' ≡ m)))
        (wsetdelete va m)
      × ((k : ℕ) → wsetdelete va (record m { clockhand = negsuc k }) ≡ fault)
unfolding wsetdelete
wsetdelete-Deleted va h m r e lh ne = (
  subst
      (λ c.
        Returns
          (λ r m'.
            ((r ≡ pos 0) × ((s : ℕ) × (s < clocksize) × (m.clockqueue s ≡ va)) × Deleted va m m')
            ⊎ ((r ≡ minus_one) × ((s : ℕ) → s < clocksize → m.clockqueue s ≢ va) × (m' ≡ m)))
          (delete_at va m c))
      (sym e)
      (answer (find_slot va h clocksize 0 m.clockqueue)
        (find_slot-FoundSlot va h clocksize 0 m.clockqueue refl)),
  λ k. refl,
)
  where
    answer :
        (o : Option ℕ)
        → FoundSlot va h 0 m.clockqueue o
        → Returns
            (λ r m'.
              ((r ≡ pos 0) × ((s : ℕ) × (s < clocksize) × (m.clockqueue s ≡ va)) × Deleted va m m')
              ⊎ ((r ≡ minus_one) × ((s : ℕ) → s < clocksize → m.clockqueue s ≢ va) × (m' ≡ m)))
            (delete_found m h o)
    answer none f = inr (
      refl,
      λ s ls.
          subst (λ x. m.clockqueue x ≢ va) {x = (h + behind h s) % 8} {y = s} (ground arith)
            (f (behind h s) (omega arith) (ground arith)),
      refl,
    )
    answer (some i) (li, at) =
        let (q', run, values) = shift_from_lem 8 i h m.clockqueue li lh (ground arith) in
        rw run (inl (refl, (i, li, at), final-Deleted m i h va q' li lh r ne at values))
