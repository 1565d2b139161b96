-- ===== src/Vm/Crypt/Pages.antt =====
-- The entries that `mencrypt` tests and writes, and the step of its second loop.
use cs537_spring.Prelude.{
  ℕ, zero, suc, ◌≡◌, Bool, true, false, ◌&&◌, ◌||◌, arith, update, if◌then◌else◌, some, Bool-cases,
  inl, inr, refl, sym, ap, ◌∙◌, not, ◌==◌,
}
use cs537_spring.Vm.Word.{has, pte_p, pte_u, pte_e, pte_page, pgsize, sealed, Sealed, sealed-Sealed}
use cs537_spring.Vm.Machine.{
  Machine, load_pte, store_pte, same_entry, load-same_entry, SameRest, store-SameRest, ok, Returns,
}
use cs537_spring.Vm.Crypt.Flip.{flip_from_lem}
use cs537_spring.Vm.Crypt.Sealing.{One, One-same, after_lock, flipped, is_plain_of}
use cs537_spring.Vm.Crypt.{flip_from, flip_page, encrypt_page, add_addr}

-- The test of `uva2ka` on an entry: a user page, present or encrypted.
abbrev pub is_user_page : ℕ → Bool
is_user_page w = (has pte_p w || has pte_e w) && has pte_u w

-- The address has a page table, or an entry that passes the test, or an encrypted one.
abbrev pub Mapped : Machine → ℕ → Type 0
Mapped m a = (w : ℕ) × (load_pte a m ≡ some w)

abbrev pub Accessible : Machine → ℕ → Type 0
Accessible m a = (w : ℕ) × (load_pte a m ≡ some w) × (is_user_page w ≡ true)

abbrev pub Encrypted : Machine → ℕ → Type 0
Encrypted m a = (w : ℕ) × (load_pte a m ≡ some w) × (has pte_e w ≡ true)

-- A property of the `n` pages from an address on.
abbrev pub Pages : (ℕ → Type 0) → ℕ → ℕ → Type 0
Pages P zero a = Unit
Pages P (suc n) a = P a × Pages P n (add_addr a pgsize)

-- The state after a page with entry `w` has been flipped and its entry marked.
abbrev pub encrypted_at : ℕ → ℕ → Machine → Machine
encrypted_at a w m =
    store_pte a (sealed w)
      (record m { mem = update m.mem (pte_page w) (flip_from pgsize 0 (m.mem (pte_page w))) })

both : (p e u : Bool) → ((p || e) && u) ≡ true → e ≡ false → p ≡ true
both p e u h k = ground arith

-- A page that is present is encrypted.
pub encrypt_page-plain :
    (a w : ℕ) (m : Machine)
    → load_pte a m ≡ some w
    → has pte_e w ≡ false
    → has pte_p w ≡ true
    → encrypt_page a m ≡ ok tt (encrypted_at a w m)
unfolding encrypt_page flip_page
encrypt_page-plain a w m l e p = rw (l, e, p)

-- An encrypted page is passed over.
pub encrypt_page-sealed :
    (a w : ℕ) (m : Machine)
    → load_pte a m ≡ some w
    → has pte_e w ≡ true
    → encrypt_page a m ≡ ok tt m
unfolding encrypt_page
encrypt_page-sealed a w m l e = rw (l, e)

-- Every entry but that of the page is as before.
pub load-encrypted_at :
    (a b w : ℕ) (m : Machine)
    → load_pte a m ≡ some w
    → load_pte b (encrypted_at a w m) ≡ (if same_entry a b then some (sealed w) else load_pte b m)
unfolding load_pte store_pte
load-encrypted_at a b w m e = ground arith

-- What one step of the second loop of `mencrypt` brings about.
pub record Step (a : ℕ) (m m' : Machine) : Type 0 where
  pub sealed_now : Encrypted m' a
  pub keeps_accessible : (b : ℕ) → Accessible m b → Accessible m' b
  pub keeps_encrypted : (b : ℕ) → Encrypted m b → Encrypted m' b
  pub one : One sealed a m m'

One-encrypted_at :
    (a w : ℕ) (m : Machine)
    → load_pte a m ≡ some w
    → has pte_e w ≡ false
    → One sealed a m (encrypted_at a w m)
One-encrypted_at a w m l e = record {
  entries = λ b. load-encrypted_at a b w m l ∙ entry (same_entry a b) b refl;
  bytes = λ f j.
      ap (λ (g : ℕ → ℕ → ℕ). g f j) rest.mem
      ∙ byte f j (pte_page w == f) refl
      ∙ ap (λ o. flipped (is_plain_of f o) j (m.mem f j)) (sym l);
  sz = rest.sz;
  clockqueue = rest.clockqueue;
  clockhand = rest.clockhand;
}
  where
    m₁ : Machine
    m₁ = record m { mem = update m.mem (pte_page w) (flip_from pgsize 0 (m.mem (pte_page w))) }

    rest : SameRest m₁ (encrypted_at a w m)
    rest = store-SameRest a (sealed w) m₁

    entry :
        (here : Bool) (b : ℕ)
        → same_entry a b ≡ here
        → (if here then some (sealed w) else load_pte b m)
          ≡ (if here then after_lock sealed (load_pte b m) else load_pte b m)
    entry false b s = refl
    entry true b s =
        ap (λ t. if t then some w else some (sealed w)) (sym e)
        ∙ ap (after_lock sealed) (sym (load-same_entry a b m s ∙ l))

    byte :
        (f j : ℕ) (t : Bool)
        → (pte_page w == f) ≡ t
        → update m.mem (pte_page w) (flip_from pgsize 0 (m.mem (pte_page w))) f j
          ≡ flipped (not (has pte_e w) && (pte_page w == f)) j (m.mem f j)
    byte f j t s = ground (arith, e, s, flip_from_lem pgsize 0 j (m.mem (pte_page w)))

Step-encrypted_at :
    (a w : ℕ) (m : Machine)
    → load_pte a m ≡ some w
    → is_user_page w ≡ true
    → has pte_e w ≡ false
    → Step a m (encrypted_at a w m)
Step-encrypted_at a w m l u plain = record {
  sealed_now = (sealed w, ground (arith, load-encrypted_at a a w m l), s.encrypted);
  keeps_accessible = λ b x. elim (Bool-cases (same_entry a b)) [
    | inl e ↦ (sealed w, rw (load-encrypted_at a b w m l, e), ground (arith, s.user, s.encrypted))
    | inr e ↦ (x.0, rw (load-encrypted_at a b w m l, e) x.1, x.2)
  ];
  keeps_encrypted = λ b x. elim (Bool-cases (same_entry a b)) [
    | inl e ↦ (sealed w, rw (load-encrypted_at a b w m l, e), s.encrypted)
    | inr e ↦ (x.0, rw (load-encrypted_at a b w m l, e) x.1, x.2)
  ];
  one = One-encrypted_at a w m l plain;
}
  where
    s : Sealed w (sealed w)
    s = sealed-Sealed w

pub encrypt_page-Step :
    (a : ℕ) (m : Machine) → Accessible m a → Returns (λ _ m'. Step a m m') (encrypt_page a m)
encrypt_page-Step a m (w, l, u) = elim (Bool-cases (has pte_e w)) [
  | inl e ↦ rw (encrypt_page-sealed a w m l e) (record {
    sealed_now = (w, l, e);
    keeps_accessible = λ b x. x;
    keeps_encrypted = λ b x. x;
    one = One-same sealed a w m l e;
  })
  | inr e ↦ rw (encrypt_page-plain a w m l e (present e)) (Step-encrypted_at a w m l u e)
]
  where
    present : has pte_e w ≡ false → has pte_p w ≡ true
    present e = both (has pte_p w) (has pte_e w) (has pte_u w) u e
