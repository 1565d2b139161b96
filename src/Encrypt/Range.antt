-- ===== src/Encrypt/Range.antt =====
-- `mencrypt` of p5/src/vm.c over a range of pages.
use cs537_spring.Prelude.{
  ℕ, zero, suc, ◌*◌, ◌%◌, ◌^◌, ◌≡◌, refl, Bool, true, false, ◌&&◌, arith, if◌then◌else◌, some, none,
  ℤ, pos, negsuc, minus_one, ltb, Bool-cases, inl, inr, ◌∙◌, ap, sym, not, ◌==◌, update,
}
use cs537_spring.Vm.Word.{pgsize, pground_down, has, pte_p, pte_e, pte_u, pte_page}
use cs537_spring.Vm.Machine.{
  Machine, load_pte, same_entry, load-same_entry, SameRest, store-SameRest, ok, Returns,
  Returns-bind, Returns-mono,
}
use cs537_spring.Vm.Crypt.{add_addr}
use cs537_spring.Vm.Crypt.Pages.{Mapped, Pages}
use cs537_spring.Vm.Crypt.Flip.{flip_from_lem}
use cs537_spring.Vm.Crypt.Sealing.{
  One, One-same, Sealing, Sealing-none, Sealing-suc, after_lock, flipped, is_plain_of,
}
use cs537_spring.Encrypt.{xor_from, xor_page, uva2ka, test_pages, seal_page, seal_pages, mencrypt}
use cs537_spring.Encrypt.Entry.{
  locked, Locked, locked-Locked, is_accessible, has_page-user_page, locked_at, load-locked_at,
  seal_page-plain, seal_page-sealed, xor_from-flip_from,
}

-- The address has an entry that passes the test, or one of an encrypted page that is not present.
abbrev pub Accessible : Machine → ℕ → Type 0
Accessible m a = (w : ℕ) × (load_pte a m ≡ some w) × (is_accessible w ≡ true)

abbrev pub IsLocked : Machine → ℕ → Type 0
IsLocked m a =
    (w : ℕ) × (load_pte a m ≡ some w)
    × (has pte_e w ≡ true)
    × (has pte_p w ≡ false)
    × (has pte_u w ≡ true)

-- Does every page of the range pass the test of `uva2ka`?
abbrev accessible_entry : ℕ → Machine → Bool
accessible_entry a m = elim (load_pte a m) [ none ↦ false | some w ↦ is_accessible w ]

pub all_accessible : ℕ → ℕ → Machine → Bool
all_accessible zero a m = true
all_accessible (suc n) a m = accessible_entry a m && all_accessible n (add_addr a pgsize) m

Pages-map : (P Q : ℕ → Type 0) (n a : ℕ) → ((b : ℕ) → P b → Q b) → Pages P n a → Pages Q n a
Pages-map P Q zero a f h = tt
Pages-map P Q (suc n) a f h = (f a h.0, Pages-map P Q n (add_addr a pgsize) f h.1)

-- The first loop gives the reference answer and changes nothing.
test_pages-all_accessible :
    (n a : ℕ) (m : Machine) → Pages (Mapped m) n a → test_pages n a m ≡ ok (all_accessible n a m) m
unfolding test_pages all_accessible uva2ka
test_pages-all_accessible zero a m h = refl
test_pages-all_accessible (suc n) a m h = rw h.0.1 (
    ground (arith, has_page-user_page h.0.0, test_pages-all_accessible n (add_addr a pgsize) m h.1))

Pages-Accessible :
    (n a : ℕ) (m : Machine)
    → Pages (Mapped m) n a
    → all_accessible n a m ≡ true
    → Pages (Accessible m) n a
unfolding all_accessible
Pages-Accessible zero a m h u = tt
Pages-Accessible (suc n) a m ((w, l), h) u =
    ((w, l, ground arith), Pages-Accessible n (add_addr a pgsize) m h (ground arith))

-- What one step of the second loop brings about.
record Step (a : ℕ) (m m' : Machine) : Type 0 where
  pub now : IsLocked m' a
  pub accessible : (b : ℕ) → Accessible m b → Accessible m' b
  pub locked_before : (b : ℕ) → IsLocked m b → IsLocked m' b
  pub one : One locked a m m'

plain_present : (w : ℕ) → is_accessible w ≡ true → has pte_e w ≡ false → has pte_p w ≡ true
plain_present w h e = ground arith

locked_entry :
    (w : ℕ)
    → is_accessible w ≡ true
    → has pte_e w ≡ true
    → (has pte_p w ≡ false) × (has pte_u w ≡ true)
locked_entry w h e = (ground arith, ground arith)

One-locked_at :
    (a w : ℕ) (m : Machine)
    → load_pte a m ≡ some w
    → has pte_e w ≡ false
    → One locked a m (locked_at a w m)
One-locked_at a w m l e = record {
  entries = λ b. load-locked_at a b w m l ∙ entry (same_entry a b) b refl;
  bytes = λ f j.
      ap (λ (g : ℕ → ℕ → ℕ). g f j) rest.mem
      ∙ byte f j (pte_page w == f) refl
      ∙ ap (λ o. flipped (is_plain_of f o) j (m.mem f j)) (sym l);
  sz = rest.sz;
  clockqueue = rest.clockqueue;
  clockhand = rest.clockhand;
}
  where
    rest : SameRest (xor_page (pte_page w) m) (locked_at a w m)
    rest = store-SameRest a (locked w) (xor_page (pte_page w) m)

    entry :
        (here : Bool) (b : ℕ)
        → same_entry a b ≡ here
        → (if here then some (locked w) else load_pte b m)
          ≡ (if here then after_lock locked (load_pte b m) else load_pte b m)
    entry false b s = refl
    entry true b s =
        ap (λ t. if t then some w else some (locked w)) (sym e)
        ∙ ap (after_lock locked) (sym (load-same_entry a b m s ∙ l))

    byte :
        (f j : ℕ) (t : Bool)
        → (pte_page w == f) ≡ t
        → update m.mem (pte_page w) (xor_from pgsize 0 (m.mem (pte_page w))) f j
          ≡ flipped (not (has pte_e w) && (pte_page w == f)) j (m.mem f j)
    byte f j t s =
        ap (λ (g : ℕ → ℕ). update m.mem (pte_page w) g f j)
          (xor_from-flip_from pgsize 0 (m.mem (pte_page w)))
        ∙ ground (arith, e, s, flip_from_lem pgsize 0 j (m.mem (pte_page w)))

Step-locked_at :
    (a w : ℕ) (m : Machine)
    → load_pte a m ≡ some w
    → is_accessible w ≡ true
    → has pte_e w ≡ false
    → Step a m (locked_at a w m)
Step-locked_at a w m l h plain = record {
  now = (locked w, ground (arith, load-locked_at a a w m l), s.encrypted, s.absent, user);
  accessible = λ b x. elim (Bool-cases (same_entry a b)) [
    | inl e ↦
        (locked w, load-locked_at a b w m l ∙ rw e refl, rw (user, s.encrypted, s.absent) refl)
    | inr e ↦ (x.0, load-locked_at a b w m l ∙ rw e x.1, x.2)
  ];
  locked_before = λ b x. elim (Bool-cases (same_entry a b)) [
    | inl e ↦ (locked w, load-locked_at a b w m l ∙ rw e refl, s.encrypted, s.absent, user)
    | inr e ↦ (x.0, load-locked_at a b w m l ∙ rw e x.1, x.2, x.3, x.4)
  ];
  one = One-locked_at a w m l plain;
}
  where
    s : Locked w (locked w)
    s = locked-Locked w

    user : has pte_u (locked w) ≡ true
    user = s.user ∙ ground arith

seal_page-Step :
    (a : ℕ) (m : Machine) → Accessible m a → Returns (λ _ m'. Step a m m') (seal_page a m)
seal_page-Step a m (w, l, h) = elim (Bool-cases (has pte_e w)) [
  | inl e ↦ rw (seal_page-sealed a w m l e) (record {
    now = (w, l, e, (locked_entry w h e).0, (locked_entry w h e).1);
    accessible = λ b x. x;
    locked_before = λ b x. x;
    one = One-same locked a w m l e;
  })
  | inr e ↦ rw (seal_page-plain a w m l h e) (Step-locked_at a w m l h e)
]

-- The second loop encrypts the range; pages that were encrypted stay so.
seal_pages-IsLocked :
    (n a : ℕ) (m : Machine)
    → Pages (Accessible m) n a
    → Returns
        (λ _ m'.
          Pages (IsLocked m') n a
          × ((b : ℕ) → IsLocked m b → IsLocked m' b)
          × Sealing locked n a m m')
        (seal_pages n a m)
unfolding seal_pages
seal_pages-IsLocked zero a m h = (tt, λ b x. x, Sealing-none locked a m)
seal_pages-IsLocked (suc n) a m h =
    Returns-bind (λ _ m₁. Step a m m₁) _ (seal_page a m) _ (seal_page-Step a m h.0)
      λ _ m₁ s.
        Returns-mono _ _ (seal_pages n (add_addr a pgsize) m₁)
          (seal_pages-IsLocked n (add_addr a pgsize) m₁
            (Pages-map (Accessible m) (Accessible m₁) n (add_addr a pgsize) s.accessible h.1))
          λ _ m' r. (
            (r.1 a s.now, r.0),
            λ b x. r.1 b (s.locked_before b x),
            Sealing-suc locked (λ w. (locked-Locked w).encrypted) n a m m₁ m' s.one r.2,
          )

-- What `mencrypt` promises for `n` pages.
abbrev pub Encryption : ℕ → ℕ → Machine → ℤ → Machine → Type 0
Encryption va n m r m' =
    if ltb m.sz (n * pgsize % 2 ^ 32)
    then (r ≡ minus_one) × (m' ≡ m)
    else if all_accessible n (pground_down va) m
    then (r ≡ pos 0)
      × Pages (IsLocked m') n (pground_down va)
      × ((b : ℕ) → IsLocked m b → IsLocked m' b)
      × Sealing locked n (pground_down va) m m'
    else (r ≡ minus_one) × (m' ≡ m)

-- If the page tables of the range exist, `mencrypt` of `n` pages returns. If the pages are more
-- than the size of the process, in 32-bit arithmetic, or some page of the range is not a user page
-- that is either present or encrypted, then the result is -1 and nothing has changed. Otherwise it
-- is 0, all pages of the range are user pages that are encrypted and not present, and so are those
-- that were before. Each entry of the range that was not encrypted is now encrypted and not
-- present, with its other bits as before; no other entry has changed. Each of the 4096 bytes of
-- a physical page, if it is below 256, is replaced by its complement where an odd number of such
-- entries are of that page, and is as before otherwise; the size stays. A negative length gives -1 and changes nothing.
pub mencrypt-Encryption :
    (va n : ℕ) (m : Machine)
    → Pages (Mapped m) n (pground_down va)
    → Returns (Encryption va n m) (mencrypt va (pos n) m)
      × ((k : ℕ) → mencrypt va (negsuc k) m ≡ ok minus_one m)
unfolding mencrypt
mencrypt-Encryption va n m h = (positive, λ k. refl)
  where
    a : ℕ
    a = pground_down va

    positive : Returns (Encryption va n m) (mencrypt va (pos n) m)
    positive = elim (Bool-cases (ltb m.sz (n * pgsize % 2 ^ 32))) [
      | inl t ↦ rw t (rw t (refl, refl))
      | inr t ↦
          rw (t, test_pages-all_accessible n a m h)
            (elim (Bool-cases (all_accessible n a m)) [
              | inr e ↦ rw e (rw (t, e) (refl, refl))
              | inl e ↦ rw e (
                  Returns-bind
                    (λ _ m'.
                      Pages (IsLocked m') n a
                      × ((b : ℕ) → IsLocked m b → IsLocked m' b)
                      × Sealing locked n a m m')
                    _ (seal_pages n a m) _ (seal_pages-IsLocked n a m (Pages-Accessible n a m h e))
                    λ _ m' r. rw (t, e) (refl, r.0, r.1, r.2))
            ])
    ]
