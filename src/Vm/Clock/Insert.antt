-- ===== src/Vm/Clock/Insert.antt =====
-- What an insertion of `wsetinsert` does, for an empty slot and for a slot whose page is evicted.
use cs537_spring.Prelude.{
  ℕ, ◌≡◌, ◌≢◌, ◌<◌, refl, true, false, arith, some, pos, ap, sym, ◌∙◌, update, ◌==◌,
}
use cs537_spring.Vm.Word.{pte_page, pgsize, sealed, Sealed, sealed-Sealed}
use cs537_spring.Vm.Machine.{Machine, clocksize, empty_slot, load_pte, same_entry, store-SameRest}
use cs537_spring.Vm.Crypt.{flip_from}
use cs537_spring.Vm.Crypt.Pages.{Encrypted, encrypted_at, load-encrypted_at}
use cs537_spring.Vm.Crypt.Flip.{complement, flip_from-complement}
use cs537_spring.Vm.Clock.{put_page}
use cs537_spring.Vm.Clock.Resident.{
  ResidentPage, Occupied, IsResident, Kept, ResidentPage-Kept, entry_ne, put_page-IsResident,
}

-- What a successful insertion of `va` has done.
pub record Inserted (m : Machine) (va : ℕ) (m' : Machine) : Type 0 where
  pub slot : ℕ
  pub in_range : slot < clocksize
  pub hand : m'.clockhand ≡ pos slot
  pub queue : m'.clockqueue ≡ update m.clockqueue slot va
  pub resident : IsResident m'
  pub kept : (b : ℕ) → (Occupied m slot → same_entry (m.clockqueue slot) b ≡ false) → Kept m m' b
  pub victim : Occupied m slot → Encrypted m' (m.clockqueue slot)
  pub victim_entry :
      Occupied m slot
      → (w v : ℕ) × (load_pte (m.clockqueue slot) m ≡ some w)
        × (load_pte (m.clockqueue slot) m' ≡ some v)
        × Sealed w v
  pub mem_filled : (m.clockqueue slot == empty_slot) ≡ true → m'.mem ≡ m.mem
  pub mem_evicted :
      Occupied m slot
      → (w : ℕ) × (load_pte (m.clockqueue slot) m ≡ some w)
        × (m'.mem ≡ update m.mem (pte_page w) (complement (m.mem (pte_page w))))

-- A page that may be inserted: decrypted, and not in the queue.
abbrev pub Insertable : Machine → ℕ → Type 0
Insertable m va = ResidentPage m va × ((s : ℕ) → s < clocksize → m.clockqueue s ≢ va)

-- The state with the hand moved.
abbrev pub moved : Machine → ℕ → Machine
moved m h = record m { clockhand = pos h }

pub Kept-moved : (m : Machine) (h b : ℕ) → Kept m (moved m h) b
unfolding load_pte
Kept-moved m h b w l = (w, l, refl, refl, refl, refl, refl)

-- An empty slot is filled.
pub Inserted-filled :
    (m : Machine) (h va : ℕ)
    → IsResident m
    → h < clocksize
    → (m.clockqueue h == empty_slot) ≡ true
    → Insertable m va
    → Inserted m va (put_page h va (moved m h))
unfolding load_pte
Inserted-filled m h va r lt e (new, out) = record {
  slot = h;
  in_range = lt;
  hand = refl;
  queue = refl;
  resident =
      put_page-IsResident m (moved m h) h va r lt refl refl
        (λ s ls n o.
          ResidentPage-Kept m (moved m h) (m.clockqueue s) (Kept-moved m h _) (r.pages s ls o))
        (ResidentPage-Kept m (moved m h) va (Kept-moved m h va) new) out;
  kept = λ b n w l. (w, l, refl, refl, refl, refl, refl);
  victim = λ o. cc;
  victim_entry = λ o. absurd (false_true (sym o ∙ e));
  mem_filled = λ x. refl;
  mem_evicted = λ o. absurd (false_true (sym o ∙ e));
}
  where
    false_true : false ≡ true → ⊥
    false_true x = cc

Kept-sealed :
    (m : Machine) (h q w b : ℕ)
    → load_pte q m ≡ some w
    → same_entry q b ≡ false
    → Kept m (encrypted_at q w (moved m h)) b
unfolding load_pte
Kept-sealed m h q w b l n v lb =
    (v, rw (load-encrypted_at q b w (moved m h) l, n) lb, refl, refl, refl, refl, refl)

Kept-evicted :
    (m : Machine) (h q w va b : ℕ)
    → load_pte q m ≡ some w
    → same_entry q b ≡ false
    → Kept m (put_page h va (encrypted_at q w (moved m h))) b
unfolding load_pte
Kept-evicted m h q w va b l n = Kept-sealed m h q w b l n

Encrypted-evicted :
    (m : Machine) (h q w va : ℕ)
    → load_pte q m ≡ some w
    → Encrypted (put_page h va (encrypted_at q w (moved m h))) q
unfolding load_pte
Encrypted-evicted m h q w va l =
    (sealed w, ground (arith, load-encrypted_at q q w (moved m h) l), (sealed-Sealed w).encrypted)

load-evicted :
    (m : Machine) (h q w va : ℕ)
    → load_pte q m ≡ some w
    → load_pte q (put_page h va (encrypted_at q w (moved m h))) ≡ some (sealed w)
unfolding load_pte
load-evicted m h q w va l = ground (arith, load-encrypted_at q q w (moved m h) l)

evicted-rest :
    (m : Machine) (q w : ℕ)
    → ((encrypted_at q w m).clockqueue ≡ m.clockqueue)
      × ((encrypted_at q w m).clockhand ≡ m.clockhand)
      × ((encrypted_at q w m).mem
          ≡ update m.mem (pte_page w) (flip_from pgsize 0 (m.mem (pte_page w))))
evicted-rest m q w =
    let r =
      store-SameRest q (sealed w)
        (record m { mem = update m.mem (pte_page w) (flip_from pgsize 0 (m.mem (pte_page w))) }) in
    (r.clockqueue, r.clockhand, r.mem)

-- A page without its reference bit is evicted.
pub Inserted-evicted :
    (m : Machine) (h va : ℕ) (p : ResidentPage m (m.clockqueue h))
    → IsResident m
    → h < clocksize
    → Occupied m h
    → Insertable m va
    → Inserted m va (put_page h va (encrypted_at (m.clockqueue h) p.entry (moved m h)))
Inserted-evicted m h va p r lt o (new, out) = record {
  slot = h;
  in_range = lt;
  hand = rest.1;
  queue = ap (λ q. update q h va) rest.0;
  resident =
      put_page-IsResident m m₁ h va r lt rest.0 rest.1
        (λ s ls n os.
          ResidentPage-Kept m m₁ (m.clockqueue s)
            (kept_at (m.clockqueue s) (
              entry_ne m m (m.clockqueue h) (m.clockqueue s) p (r.pages s ls os)
                (r.distinct h s lt ls (λ e. n (sym e)) o)))
            (r.pages s ls os))
        (ResidentPage-Kept m m₁ va (kept_at va (entry_ne m m (m.clockqueue h) va p new (out h lt)))
          new)
        out;
  kept = λ b n. Kept-evicted m h (m.clockqueue h) p.entry va b p.loaded (n o);
  victim = λ _. Encrypted-evicted m h (m.clockqueue h) p.entry va p.loaded;
  victim_entry = λ _. (
    p.entry,
    sealed p.entry,
    p.loaded,
    load-evicted m h (m.clockqueue h) p.entry va p.loaded,
    sealed-Sealed p.entry,
  );
  mem_filled = λ e. cc;
  mem_evicted = λ _. (
    p.entry,
    p.loaded,
    rest.2
        ∙ ap (λ f. update m.mem (pte_page p.entry) f)
            (flip_from-complement (m.mem (pte_page p.entry))),
  );
}
  where
    m₁ : Machine
    m₁ = encrypted_at (m.clockqueue h) p.entry (moved m h)

    rest :
        (m₁.clockqueue ≡ m.clockqueue)
        × (m₁.clockhand ≡ pos h)
        × (m₁.mem ≡ update m.mem (pte_page p.entry) (flip_from pgsize 0 (m.mem (pte_page p.entry))))
    rest = evicted-rest (moved m h) (m.clockqueue h) p.entry

    kept_at : (b : ℕ) → same_entry (m.clockqueue h) b ≡ false → Kept m m₁ b
    kept_at b n = Kept-sealed m h (m.clockqueue h) p.entry b p.loaded n
