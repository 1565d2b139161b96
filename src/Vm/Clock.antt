-- ===== src/Vm/Clock.antt =====
-- The working set of p6/vm.c: a clock queue of at most CLOCKSIZE decrypted pages.
pub mod Resident
pub mod Insert
pub mod Sweep
pub mod Fault
pub mod Delete
pub mod Clear
use cs537_spring.Prelude.{
  ℕ, zero, suc, ◌+◌, ◌-◌, ◌%◌, Bool, true, false, Option, none, some, not, leb, ℤ, pos, negsuc,
  minus_one, update, ◌==◌, if◌then◌else◌,
}
use cs537_spring.Vm.Word.{has, set_flag, clear_flag, pte_p, pte_a, pte_e, pground_down}
use cs537_spring.Vm.Machine.{
  Machine, clocksize, empty_slot, load_pte, store_pte, Result, ok, fault, out_of_fuel, Command,
  and_then, with_some,
}
use cs537_spring.Vm.Crypt.{kernbase, flip_page, mencrypt}

-- `(i + 1) % CLOCKSIZE` as an index of the queue; for an `int` below -1 it may be negative, which
-- is no index.
abbrev pub next_hand : ℤ → Option ℕ
next_hand (pos n) = some ((n + 1) % clocksize)
next_hand (negsuc n) = if n % clocksize == 0 then some 0 else none

abbrev pub eq_zero : ℤ → Bool
eq_zero (pos n) = n == 0
eq_zero (negsuc n) = false

-- `p->clockqueue[p->clockhand] = virtual_addr`.
abbrev pub put_page : ℕ → ℕ → Machine → Machine
put_page h va m = record m { clockqueue = update m.clockqueue h va }

-- A page whose reference bit is not set is evicted, and replaced.
pub evict : ℕ → ℕ → Command ℤ
evict h va m =
    and_then (mencrypt (m.clockqueue h) (pos 1) m)
      λ r m₁. if eq_zero r then ok (pos 0) (put_page h va m₁) else ok minus_one m₁

-- One turn of `while (1)` of `wsetinsert`, with the hand moved to `h`; `rest` is the turns after.
abbrev pub insert_turn : ℕ → Command ℤ → ℕ → Command ℤ
insert_turn va rest h m =
    if m.clockqueue h == empty_slot
    then ok (pos 0) (put_page h va m)
    else with_some fault (load_pte (pground_down (m.clockqueue h)) m) λ w.
      if not (has pte_a w)
      then evict h va m
      else rest (store_pte (pground_down (m.clockqueue h)) (clear_flag pte_a w) m)

-- `wsetinsert`, with fuel for its turns.
pub wsetinsert : ℕ → ℕ → Command ℤ
wsetinsert zero va m = out_of_fuel
wsetinsert (suc fuel) va m =
    with_some fault (next_hand m.clockhand)
      λ h. insert_turn va (wsetinsert fuel va) h (record m { clockhand = pos h })

-- A turn for each slot clears all reference bits; the turn after them evicts.
abbrev pub insert_fuel : ℕ
insert_fuel = 9

-- `mdecrypt`, which the page fault handler calls.
pub mdecrypt : ℕ → Command ℤ
mdecrypt va m =
    if leb kernbase va
    then ok minus_one m
    else with_some (ok minus_one m) (load_pte va m) λ w.
      if w == 0
      then ok minus_one m
      else (let w₁ = set_flag pte_p (clear_flag pte_e w) in
          and_then (flip_page w₁ (store_pte va w₁ m))
            (λ _ m₁. wsetinsert insert_fuel (pground_down va) m₁))

-- `clearwset`: eight writes and the hand.
pub clear_slots : ℕ → ℕ → (ℕ → ℕ) → ℕ → ℕ
clear_slots zero i q = q
clear_slots (suc n) i q = clear_slots n (i + 1) (update q i empty_slot)

pub clearwset : Machine → Machine
unfolding clear_slots
clearwset m = record m { clockqueue = clear_slots clocksize 0 m.clockqueue; clockhand = minus_one }

-- `searchwset`.
unfoldable pub search_slots : ℕ → ℕ → ℕ → (ℕ → ℕ) → Bool
search_slots va zero i q = false
search_slots va (suc n) i q =
    let rest = search_slots va n (i + 1) q in
    if not (q i == empty_slot) then if q i == va then true else rest else rest

unfoldable pub searchwset : ℕ → Machine → ℤ
unfolding search_slots
searchwset va m = if search_slots va clocksize 0 m.clockqueue then pos 1 else minus_one

-- `wsetdelete`: the last slot with the address, of those from the hand on, `n` slots from `i` on.
abbrev pub later : ℕ → Option ℕ → Option ℕ
later s none = some s
later s (some t) = some t

unfoldable pub find_slot : ℕ → ℕ → ℕ → ℕ → (ℕ → ℕ) → Option ℕ
find_slot va h zero i q = none
find_slot va h (suc n) i q =
    let rest = find_slot va h n (i + 1) q in
    if q ((h + i) % clocksize) == va then later ((h + i) % clocksize) rest else rest

-- The pages after the deleted one, up to the hand, move by one slot.
unfoldable pub shift_from : ℕ → ℕ → ℕ → (ℕ → ℕ) → Option (ℕ → ℕ)
shift_from zero i tail q = if i == tail then some q else none
shift_from (suc fuel) i tail q =
    let rest = shift_from fuel ((i + 1) % clocksize) tail (update q i (q ((i + 1) % clocksize))) in
    if i == tail then some q else rest

abbrev pub shifted : Machine → ℕ → Option (ℕ → ℕ) → Result ℤ
shifted m h none = out_of_fuel
shifted m h (some q) = ok (pos 0) (record m {
  clockqueue = update q h empty_slot;
  clockhand = if h == 0 then pos (clocksize - 1) else pos (h - 1);
})

abbrev pub delete_found : Machine → ℕ → Option ℕ → Result ℤ
delete_found m h none = ok minus_one m
delete_found m h (some s) = shifted m h (shift_from clocksize s h m.clockqueue)

abbrev pub delete_at : ℕ → Machine → ℤ → Result ℤ
delete_at va m (pos h) = delete_found m h (find_slot va h clocksize 0 m.clockqueue)
delete_at va m (negsuc h) = fault

-- `wsetdelete`. With the hand at -1 the slot -1 is read, outside of the array.
unfoldable pub wsetdelete : ℕ → Command ℤ
unfolding find_slot shift_from
wsetdelete va m = delete_at va m m.clockhand
