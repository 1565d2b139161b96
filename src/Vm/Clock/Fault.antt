-- ===== src/Vm/Clock/Fault.antt =====
-- `mdecrypt`, and what it makes of a page that `mencrypt` has encrypted.
pub mod Restore
use cs537_spring.Prelude.{
  ℕ, zero, suc, ◌+◌, ◌-◌, ◌%◌, ◌^◌, ◌≡◌, ◌≢◌, ◌<◌, ◌≤◌, refl, Bool, true, false, arith,
  if◌then◌else◌, some, none, Option, ℤ, pos, ap, sym, subst, ◌∙◌, ◌⊎◌, Bool-cases, inl, inr, update,
  update_self, update-ne, ◌==◌, ◌&&◌, not, minus_one, leb,
}
use native.Mathlib.Decide.{ℕ_discrete}
use cs537_spring.Vm.Word.{
  has, pte_p, pte_u, pte_a, pte_e, pte_page, pgsize, pground_down, clear_flag, set_flag, opened,
  Opened, opened-Opened, sealed, Sealed, sealed-Sealed, opened-sealed,
}
use cs537_spring.Vm.Machine.{
  Machine, clocksize, empty_slot, load_pte, store_pte, load-store, same_entry, load-same_entry,
  SameRest, store-SameRest, ok, Result, Returns, Returns-mono, with_some, and_then, Command,
}
use cs537_spring.Vm.Crypt.{kernbase, flip_from, flip_page, mencrypt}
use cs537_spring.Vm.Crypt.Flip.{flip_from-flip_from, flip_from_lem}
use cs537_spring.Vm.Crypt.Pages.{Encrypted, encrypted_at, load-encrypted_at}
use cs537_spring.Vm.Crypt.Range.{mencrypt-one}
use cs537_spring.Vm.Clock.{next_hand, put_page, wsetinsert, insert_fuel, mdecrypt}
use cs537_spring.Vm.Clock.Resident.{ResidentPage, Occupied, IsResident, ResidentPage-Kept, entry_ne}
use cs537_spring.Vm.Clock.Insert.{Inserted, Insertable}
use cs537_spring.Vm.Clock.Sweep.{wsetinsert-Inserted}

-- The state after the entry `w` of an address has been opened and its page flipped.
abbrev pub decrypted_at : ℕ → ℕ → Machine → Machine
decrypted_at va w m =
    let m₁ = store_pte va (opened w) m in
    record m₁ { mem = update m₁.mem (pte_page w) (flip_from pgsize 0 (m₁.mem (pte_page w))) }

-- An entry that is not 0 is opened and its page flipped, encrypted or not, then inserted.
pub mdecrypt-opened :
    (va w : ℕ) (m : Machine)
    → va < kernbase
    → load_pte va m ≡ some w
    → w ≢ 0
    → mdecrypt va m ≡ wsetinsert insert_fuel (pground_down va) (decrypted_at va w m)
unfolding mdecrypt flip_page
mdecrypt-opened va w m lt l n =
    let o = opened-Opened w in
    let small : leb kernbase va ≡ false = ground arith in
    let nonzero : (w == 0) ≡ false = ground arith in rw (small, l, nonzero, o.present, o.page) refl

-- An address and its page have one entry.
pub same_entry-pground_down : (va : ℕ) → same_entry va (pground_down va) ≡ true
same_entry-pground_down va = ground arith

-- The rest of the state after a page has been opened.
pub record Opening (va w : ℕ) (m : Machine) : Type 0 where
  pub queue : (decrypted_at va w m).clockqueue ≡ m.clockqueue
  pub hand : (decrypted_at va w m).clockhand ≡ m.clockhand
  pub bytes :
      (decrypted_at va w m).mem
      ≡ update m.mem (pte_page w) (flip_from pgsize 0 (m.mem (pte_page w)))

pub decrypted_at-Opening : (va w : ℕ) (m : Machine) → Opening va w m
decrypted_at-Opening va w m =
    let r = store-SameRest va (opened w) m in
    record {
      queue = r.clockqueue;
      hand = r.clockhand;
      bytes = ap (λ f. update f (pte_page w) (flip_from pgsize 0 (f (pte_page w)))) r.mem;
    }

pub load-decrypted_at :
    (va b w : ℕ) (m : Machine)
    → load_pte va m ≡ some w
    → load_pte b (decrypted_at va w m) ≡ (if same_entry va b then some (opened w) else load_pte b m)
unfolding load_pte store_pte
load-decrypted_at va b w m e = ground arith

-- A page in the queue is not encrypted, so an encrypted page is not in the queue.
encrypted_out :
    (m : Machine) (va w s : ℕ)
    → IsResident m
    → va < kernbase
    → load_pte va m ≡ some w
    → has pte_e w ≡ true
    → s < clocksize
    → m.clockqueue s ≢ pground_down va
encrypted_out m va w s r lt l e ls x = elim (Bool-cases (m.clockqueue s == empty_slot)) [
  | inl o ↦ let here : m.clockqueue s ≡ empty_slot = ground arith in absurd (omega (arith, here, x))
  | inr o ↦
      let p = r.pages s ls o in
      let at : load_pte (m.clockqueue s) m ≡ load_pte va m =
        ap (λ b. load_pte b m) x
        ∙ load-same_entry va (pground_down va) m (same_entry-pground_down va) in
      ground (arith, at, p.loaded, p.plain, l, e)
]

-- Another page's entry stays.
ResidentPage-decrypted_at :
    (m : Machine) (va w a : ℕ)
    → load_pte va m ≡ some w
    → same_entry va a ≡ false
    → ResidentPage m a
    → ResidentPage (decrypted_at va w m) a
ResidentPage-decrypted_at m va w a l n p = record {
  aligned = p.aligned;
  small = p.small;
  entry = p.entry;
  loaded = rw (load-decrypted_at va a w m l, n) p.loaded;
  present = p.present;
  plain = p.plain;
  user = p.user;
}

resident_other :
    (m : Machine) (va w a : ℕ)
    → load_pte va m ≡ some w
    → has pte_e w ≡ true
    → ResidentPage m a
    → same_entry va a ≡ false
resident_other m va w a l e p = elim (Bool-cases (same_entry va a)) [
  | inr n ↦ n
  | inl y ↦ ground (arith, load-same_entry va a m y, p.loaded, p.plain)
]

-- The invariant goes over to a state with the same queue and hand, in which the pages of the queue
-- are resident.
pub IsResident-same :
    (m m₁ : Machine)
    → IsResident m
    → m₁.clockqueue ≡ m.clockqueue
    → m₁.clockhand ≡ m.clockhand
    → ((s : ℕ) → s < clocksize → ResidentPage m (m.clockqueue s) → ResidentPage m₁ (m.clockqueue s))
    → IsResident m₁
IsResident-same m m₁ r queue hand pages = record {
  pages = λ s ls o. subst (ResidentPage m₁) (sym (at s)) (pages s ls (r.pages s ls (occ s o)));
  distinct = λ s t ls lt ne o x. r.distinct s t ls lt ne (occ s o) (sym (at s) ∙ x ∙ at t);
  hand = let (h, lt, e) = r.hand in (h, lt, ap next_hand hand ∙ e);
}
  where
    at : (s : ℕ) → m₁.clockqueue s ≡ m.clockqueue s
    at s = ap (λ (f : ℕ → ℕ). f s) queue

    occ : (s : ℕ) → Occupied m₁ s → Occupied m s
    occ s o = subst (λ q. (q == empty_slot) ≡ false) (at s) o

IsResident-decrypted_at :
    (m : Machine) (va w : ℕ)
    → IsResident m
    → load_pte va m ≡ some w
    → has pte_e w ≡ true
    → IsResident (decrypted_at va w m)
IsResident-decrypted_at m va w r l e =
    let d = decrypted_at-Opening va w m in
    IsResident-same m (decrypted_at va w m) r d.queue d.hand λ s ls p.
      ResidentPage-decrypted_at m va w (m.clockqueue s) l
        (resident_other m va w (m.clockqueue s) l e p) p

Insertable-decrypted_at :
    (m : Machine) (va w : ℕ)
    → IsResident m
    → va < kernbase
    → load_pte va m ≡ some w
    → has pte_e w ≡ true
    → has pte_u w ≡ true
    → Insertable (decrypted_at va w m) (pground_down va)
Insertable-decrypted_at m va w r lt l e u = (
  record {
    aligned = omega arith;
    small = omega arith;
    entry = opened w;
    loaded = rw (load-decrypted_at va (pground_down va) w m l, same_entry-pground_down va) refl;
    present = o.present;
    plain = o.plain;
    user = o.user ∙ u;
  },
  λ s ls.
      subst (λ (q : ℕ → ℕ). q s ≢ pground_down va) (sym (decrypted_at-Opening va w m).queue)
        (encrypted_out m va w s r lt l e ls),
)
  where
    o : Opened w (opened w)
    o = opened-Opened w

nonzero : (w : ℕ) → has pte_e w ≡ true → w ≢ 0
nonzero w e x = ground arith

-- A fault on an encrypted user page, from a state in which the working set satisfies its invariant:
-- `mdecrypt` returns 0. Its result is that of opening the page's entry and flipping its bytes, and
-- then inserting the page, with all that an insertion guarantees: the page is in the queue at the
-- hand, the invariant holds, and the page that it replaces, if any, is encrypted.
pub mdecrypt-Inserted :
    (m : Machine) (va w : ℕ)
    → IsResident m
    → va < kernbase
    → load_pte va m ≡ some w
    → has pte_e w ≡ true
    → has pte_u w ≡ true
    → Returns
        (λ r m'. (r ≡ pos 0) × Inserted (decrypted_at va w m) (pground_down va) m')
        (mdecrypt va m)
mdecrypt-Inserted m va w r lt l e u = rw (mdecrypt-opened va w m lt l (nonzero w e)) (
    wsetinsert-Inserted (decrypted_at va w m) (pground_down va)
      (IsResident-decrypted_at m va w r l e) (Insertable-decrypted_at m va w r lt l e u))

-- A fault on a page that is present and not encrypted, such as the guard page below the stack, when
-- the slot after the hand is empty: `mdecrypt` returns 0 though there was nothing to decrypt. The
-- bytes of the page are flipped, and the page is put into the queue.
pub mdecrypt-plain :
    (m : Machine) (va w h : ℕ)
    → va < kernbase
    → load_pte va m ≡ some w
    → has pte_p w ≡ true
    → next_hand m.clockhand ≡ some h
    → m.clockqueue h ≡ empty_slot
    → Returns
        (λ r m'.
          (r ≡ pos 0)
          × (m'.mem ≡ update m.mem (pte_page w) (flip_from pgsize 0 (m.mem (pte_page w))))
          × (m'.clockqueue ≡ update m.clockqueue h (pground_down va)))
        (mdecrypt va m)
unfolding wsetinsert
mdecrypt-plain m va w h lt l p e q =
    let d = decrypted_at-Opening va w m in
    let hand : next_hand (decrypted_at va w m).clockhand ≡ some h = ap next_hand d.hand ∙ e in
    let empty : ((decrypted_at va w m).clockqueue h == empty_slot) ≡ true =
      ground (arith, ap (λ (f : ℕ → ℕ). f h) d.queue, q) in
    rw (mdecrypt-opened va w m lt l (present_nonzero w p), hand, empty)
      (refl, d.bytes, ap (λ f. update f h (pground_down va)) d.queue)
  where
    present_nonzero : (w : ℕ) → has pte_p w ≡ true → w ≢ 0
    present_nonzero w p x = ground arith
