-- ===== src/Vm/Clock/Fault/Restore.antt =====
-- `mdecrypt` after `mencrypt`, in p6/vm.c.
use cs537_spring.Prelude.{
  ℕ, ◌≡◌, ◌≢◌, ◌<◌, refl, true, false, arith, some, pos, ap, sym, subst, ◌∙◌, update, update_twice,
}
use cs537_spring.Vm.Word.{
  has, pte_p, pte_a, pte_e, pte_page, pgsize, clear_flag, sealed, Sealed, sealed-Sealed,
  opened-sealed,
}
use cs537_spring.Vm.Machine.{
  Machine, clocksize, load_pte, same_entry, SameRest, store-SameRest, Returns, Returns-mono,
  and_then,
}
use cs537_spring.Vm.Crypt.{kernbase, flip_from, mencrypt}
use cs537_spring.Vm.Crypt.Flip.{flip_from-flip_from}
use cs537_spring.Vm.Crypt.Pages.{encrypted_at, load-encrypted_at}
use cs537_spring.Vm.Crypt.Range.{mencrypt-one}
use cs537_spring.Vm.Clock.{mdecrypt}
use cs537_spring.Vm.Clock.Resident.{ResidentPage, IsResident, entry_ne}
use cs537_spring.Vm.Clock.Insert.{Inserted, Insertable}
use cs537_spring.Vm.Clock.Fault.{
  decrypted_at, Opening, decrypted_at-Opening, load-decrypted_at, IsResident-same,
  mdecrypt-Inserted,
}

-- The state in between: encrypted, then opened again.
abbrev pub reopened : ℕ → ℕ → Machine → Machine
reopened q w m = decrypted_at q (sealed w) (encrypted_at q w m)

-- What opening an encrypted page again restores.
pub record Restored (q w : ℕ) (m m₂ : Machine) : Type 0 where
  pub entry : load_pte q m₂ ≡ some (clear_flag pte_a w)
  pub others : (b : ℕ) → same_entry q b ≡ false → load_pte b m₂ ≡ load_pte b m
  pub bytes : (k j : ℕ) → m.mem k j < 256 → m₂.mem k j ≡ m.mem k j
  pub queue : m₂.clockqueue ≡ m.clockqueue
  pub hand : m₂.clockhand ≡ m.clockhand

same_entry_self : (q : ℕ) → same_entry q q ≡ true
same_entry_self q = ground arith

reopened-Restored :
    (q w : ℕ) (m : Machine)
    → load_pte q m ≡ some w
    → has pte_p w ≡ true
    → has pte_e w ≡ false
    → Restored q w m (reopened q w m)
reopened-Restored q w m l p e = record {
  entry =
      rw (load-decrypted_at q q (sealed w) (encrypted_at q w m) l₁, same_entry_self q)
        (ap some (opened-sealed w p e));
  others = λ b n.
      rw
        (
          load-decrypted_at q b (sealed w) (encrypted_at q w m) l₁,
          n,
          load-encrypted_at q b w m l,
          n,
        )
        refl;
  bytes = λ k j lt.
      ap (λ (f : ℕ → ℕ → ℕ). f k j) d.bytes
      ∙ ap
          (λ (f : ℕ → ℕ → ℕ).
            update f (pte_page (sealed w)) (flip_from pgsize 0 (f (pte_page (sealed w)))) k j)
          s.mem
      ∙ ap (λ n. update flipped.mem n (flip_from pgsize 0 (flipped.mem n)) k j)
          (sealed-Sealed w).page
      ∙ update_twice m.mem (flip_from pgsize 0) (pte_page w) k j λ x.
        flip_from-flip_from pgsize 0 j (m.mem (pte_page w))
          (subst (λ i. m.mem i j < 256) (sym x) lt);
  queue = d.queue ∙ s.clockqueue;
  hand = d.hand ∙ s.clockhand;
}
  where
    l₁ : load_pte q (encrypted_at q w m) ≡ some (sealed w)
    l₁ = ground (arith, load-encrypted_at q q w m l)

    d : Opening q (sealed w) (encrypted_at q w m)
    d = decrypted_at-Opening q (sealed w) (encrypted_at q w m)

    flipped : Machine
    flipped = record m { mem = update m.mem (pte_page w) (flip_from pgsize 0 (m.mem (pte_page w))) }

    s : SameRest flipped (encrypted_at q w m)
    s = store-SameRest q (sealed w) flipped

IsResident-encrypted_at :
    (m : Machine) (q w : ℕ)
    → IsResident m
    → Insertable m q
    → load_pte q m ≡ some w
    → IsResident (encrypted_at q w m)
IsResident-encrypted_at m q w r (new, out) l =
    IsResident-same m (encrypted_at q w m) r s.clockqueue s.clockhand λ i li p. record {
      aligned = p.aligned;
      small = p.small;
      entry = p.entry;
      loaded =
          rw
            (
              load-encrypted_at q (m.clockqueue i) w m l,
              entry_ne m m q (m.clockqueue i) new p (λ e. out i li (sym e)),
            )
            p.loaded;
      present = p.present;
      plain = p.plain;
      user = p.user;
    }
  where
    flipped : Machine
    flipped = record m { mem = update m.mem (pte_page w) (flip_from pgsize 0 (m.mem (pte_page w))) }

    s : SameRest flipped (encrypted_at q w m)
    s = store-SameRest q (sealed w) flipped

-- If the working set satisfies its invariant, and a decrypted page below KERNBASE outside of it is
-- encrypted and then faulted in, `mdecrypt` returns 0. The final state is that of an insertion of
-- the page, with all that this guarantees, into a state that is the first one but for the reference
-- bit of the page: all entries, all bytes of memory, the queue and the hand are the same.
pub mencrypt-mdecrypt :
    (m : Machine) (q : ℕ) (p : ResidentPage m q)
    → IsResident m
    → ((s : ℕ) → s < clocksize → m.clockqueue s ≢ q)
    → q < kernbase
    → Returns
        (λ r m'. (r ≡ pos 0) × (m₂ : Machine) × Restored q p.entry m m₂ × Inserted m₂ q m')
        (and_then (mencrypt q (pos 1) m) (λ _ m₁. mdecrypt q m₁))
mencrypt-mdecrypt m q p r out lt =
    rw (mencrypt-one q p.entry m p.aligned p.loaded p.present p.plain p.user) (
      Returns-mono _ _ (mdecrypt q m₁)
        (mdecrypt-Inserted m₁ q (sealed p.entry)
          (IsResident-encrypted_at m q p.entry r (p, out) p.loaded) lt
          (rw (load-encrypted_at q q p.entry m p.loaded, same_entry_self q) refl) s.encrypted
          (s.user ∙ p.user))
        λ a m' (z, i). (
          z,
          reopened q p.entry m,
          reopened-Restored q p.entry m p.loaded p.present p.plain,
          subst (λ b. Inserted (reopened q p.entry m) b m') p.aligned i,
        ))
  where
    m₁ : Machine
    m₁ = encrypted_at q p.entry m

    s : Sealed p.entry (sealed p.entry)
    s = sealed-Sealed p.entry
