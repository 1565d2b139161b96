-- ===== src/Vm/Clock/Clear.antt =====
-- `clearwset` and `searchwset` of p6/vm.c.
use cs537_spring.Prelude.{
  ◌≤◌, ℕ, zero, suc, ◌+◌, ◌≡◌, ◌<◌, refl, arith, ap, ◌∙◌, false, ◌&&◌, ltb, leb, pos, minus_one,
  update, if◌then◌else◌,
}
use cs537_spring.Vm.Machine.{Machine, clocksize, empty_slot, load_pte}
use cs537_spring.Vm.Clock.{next_hand, clear_slots, clearwset, search_slots, searchwset}
use cs537_spring.Vm.Clock.Resident.{Occupied, IsResident}

clear_slots_lem :
    (n i s : ℕ) (q : ℕ → ℕ)
    → clear_slots n i q s ≡ (if leb i s && ltb s (i + n) then empty_slot else q s)
unfolding clear_slots
clear_slots_lem zero i s q = ground arith
clear_slots_lem (suc n) i s q = ground (arith, clear_slots_lem n (i + 1) s (update q i empty_slot))

pub clearwset-slot : (s : ℕ) (m : Machine) → s < clocksize → (clearwset m).clockqueue s ≡ empty_slot
unfolding clearwset
clearwset-slot s m l = clear_slots_lem clocksize 0 s m.clockqueue ∙ inside s l
  where
    inside :
        (s : ℕ)
        → s < clocksize
        → (if leb 0 s && ltb s (0 + clocksize) then empty_slot else m.clockqueue s) ≡ empty_slot
    inside s l = ground arith

pub clearwset-hand : (m : Machine) → (clearwset m).clockhand ≡ minus_one
unfolding clearwset
clearwset-hand m = refl

pub load_pte-clearwset : (a : ℕ) (m : Machine) → load_pte a (clearwset m) ≡ load_pte a m
unfolding clearwset load_pte
load_pte-clearwset a m = refl

-- A queue of empty slots satisfies the invariant of the working set.
pub empty-IsResident :
    (m : Machine)
    → ((s : ℕ) → s < clocksize → m.clockqueue s ≡ empty_slot)
    → m.clockhand ≡ minus_one
    → IsResident m
empty-IsResident m slots hand = record {
  pages = λ s l o. absurd (occupied s l o);
  distinct = λ s t l k ne o. absurd (occupied s l o);
  hand = (0, omega arith, ap next_hand hand);
}
  where
    occupied : (s : ℕ) → s < clocksize → ¬ Occupied m s
    occupied s l o = ground (arith, slots s l, o)

search_slots-empty :
    (va n i : ℕ) (q : ℕ → ℕ)
    → ((s : ℕ) → i ≤ s → s < i + n → q s ≡ empty_slot)
    → search_slots va n i q ≡ false
unfolding search_slots
search_slots-empty va zero i q h = refl
search_slots-empty va (suc n) i q h = ground (
  arith,
  h i (omega arith) (omega arith),
  search_slots-empty va n (i + 1) q λ s l k. h s (omega arith) (omega arith),
)

-- After `clearwset` no page is found.
pub searchwset-clearwset : (va : ℕ) (m : Machine) → searchwset va (clearwset m) ≡ minus_one
unfolding searchwset
searchwset-clearwset va m =
    ap (λ b. if b then pos 1 else minus_one)
      (search_slots-empty va clocksize 0 (clearwset m).clockqueue
        λ s l k. clearwset-slot s m (omega arith))
