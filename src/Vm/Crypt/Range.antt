-- ===== src/Vm/Crypt/Range.antt =====
-- `mencrypt` over a range of pages.
use cs537_spring.Prelude.{
  ℕ, zero, suc, ◌≡◌, refl, Bool, true, false, ◌&&◌, arith, if◌then◌else◌, some, none, ℤ, pos,
  minus_one, to_nat, Bool-cases, inl, inr,
}
use cs537_spring.Vm.Word.{
  pgsize, pground_down, has, pte_p, pte_e, pte_u, pte_page, sealed, sealed-Sealed,
}
use cs537_spring.Vm.Machine.{
  Machine, load_pte, store_pte, ok, fault, Returns, Returns-bind, Returns-mono,
}
use cs537_spring.Vm.Crypt.{
  uva2ka, uva2ka_of, is_some, check_pages, encrypt_page, encrypt_pages, mencrypt, add_addr,
}
use cs537_spring.Vm.Crypt.Sealing.{Sealing, Sealing-none, Sealing-suc}
use cs537_spring.Vm.Crypt.Pages.{
  is_user_page, Mapped, Accessible, Encrypted, Pages, Step, encrypt_page-Step, encrypted_at,
  encrypt_page-plain, encrypt_page-sealed,
}

Pages-map : (P Q : ℕ → Type 0) (n a : ℕ) → ((b : ℕ) → P b → Q b) → Pages P n a → Pages Q n a
Pages-map P Q zero a f h = tt
Pages-map P Q (suc n) a f h = (f a h.0, Pages-map P Q n (add_addr a pgsize) f h.1)

-- Does every page of the range pass the test of `uva2ka`?
abbrev user_entry : ℕ → Machine → Bool
user_entry a m = elim (load_pte a m) [ none ↦ false | some w ↦ is_user_page w ]

pub all_user : ℕ → ℕ → Machine → Bool
all_user zero a m = true
all_user (suc n) a m = user_entry a m && all_user n (add_addr a pgsize) m

is_some-uva2ka_of : (w : ℕ) → is_some (uva2ka_of w) ≡ is_user_page w
is_some-uva2ka_of w = ground arith

-- The first loop gives the reference answer and changes nothing.
check_pages-all_user :
    (n a : ℕ) (m : Machine) → Pages (Mapped m) n a → check_pages n a m ≡ ok (all_user n a m) m
unfolding check_pages all_user uva2ka
check_pages-all_user zero a m h = refl
check_pages-all_user (suc n) a m h =
    rw h.0.1
      (ground (arith, is_some-uva2ka_of h.0.0, check_pages-all_user n (add_addr a pgsize) m h.1))

Pages-Accessible :
    (n a : ℕ) (m : Machine)
    → Pages (Mapped m) n a
    → all_user n a m ≡ true
    → Pages (Accessible m) n a
unfolding all_user
Pages-Accessible zero a m h u = tt
Pages-Accessible (suc n) a m ((w, l), h) u =
    ((w, l, ground arith), Pages-Accessible n (add_addr a pgsize) m h (ground arith))

-- The second loop encrypts the range; pages that were encrypted stay so.
encrypt_pages-Encrypted :
    (n a : ℕ) (m : Machine)
    → Pages (Accessible m) n a
    → Returns
        (λ _ m'.
          Pages (Encrypted m') n a
          × ((b : ℕ) → Encrypted m b → Encrypted m' b)
          × Sealing sealed n a m m')
        (encrypt_pages n a m)
unfolding encrypt_pages
encrypt_pages-Encrypted zero a m h = (tt, λ b x. x, Sealing-none sealed a m)
encrypt_pages-Encrypted (suc n) a m h =
    Returns-bind (λ _ m₁. Step a m m₁) _ (encrypt_page a m) _ (encrypt_page-Step a m h.0)
      λ _ m₁ s.
        Returns-mono _ _ (encrypt_pages n (add_addr a pgsize) m₁)
          (encrypt_pages-Encrypted n (add_addr a pgsize) m₁
            (Pages-map (Accessible m) (Accessible m₁) n (add_addr a pgsize) s.keeps_accessible h.1))
          λ _ m' r. (
            (r.1 a s.sealed_now, r.0),
            λ b x. r.1 b (s.keeps_encrypted b x),
            Sealing-suc sealed (λ w. (sealed-Sealed w).encrypted) n a m m₁ m' s.one r.2,
          )

-- If the page tables of the range exist, `mencrypt` returns. Where every page of the range is a
-- user page that is present or encrypted, the result is 0, all these pages are encrypted, and so
-- are the pages that were before. Each entry of the range that was not encrypted is now encrypted,
-- not present and not referenced, with its other bits as before; no other entry has changed. Each
-- of the 4096 bytes of a physical page, if it is below 256, is replaced by its complement where an
-- odd number of such entries are of that page, and is as before otherwise. The queue, the hand and the size stay. If
-- some page of the range fails the test, the result is -1 and nothing has changed.
pub mencrypt-Pages :
    (va : ℕ) (len : ℤ) (m : Machine)
    → Pages (Mapped m) (to_nat len) (pground_down va)
    → Returns
        (λ r m'.
          if all_user (to_nat len) (pground_down va) m
          then (r ≡ pos 0)
            × Pages (Encrypted m') (to_nat len) (pground_down va)
            × ((b : ℕ) → Encrypted m b → Encrypted m' b)
            × Sealing sealed (to_nat len) (pground_down va) m m'
          else (r ≡ minus_one) × (m' ≡ m))
        (mencrypt va len m)
unfolding mencrypt
mencrypt-Pages va len m h = rw (check_pages-all_user n a m h) (elim (Bool-cases (all_user n a m)) [
  | inr e ↦ rw e (refl, refl)
  | inl e ↦ rw e (
      Returns-bind
        (λ _ m'.
          Pages (Encrypted m') n a
          × ((b : ℕ) → Encrypted m b → Encrypted m' b)
          × Sealing sealed n a m m')
        _ (encrypt_pages n a m) _ (encrypt_pages-Encrypted n a m (Pages-Accessible n a m h e))
        λ _ m' r. (refl, r.0, r.1, r.2))
])
  where
    n : ℕ
    n = to_nat len

    a : ℕ
    a = pground_down va

-- A page without a page table: the entry is read through the null pointer that `walkpgdir` gives.
pub mencrypt-fault :
    (va n : ℕ) (m : Machine)
    → load_pte (pground_down va) m ≡ none
    → mencrypt va (pos (suc n)) m ≡ fault
unfolding mencrypt check_pages uva2ka
mencrypt-fault va n m e = rw e

-- One page at an aligned address, a user's, present and not encrypted.
pub mencrypt-one :
    (q w : ℕ) (m : Machine)
    → pground_down q ≡ q
    → load_pte q m ≡ some w
    → has pte_p w ≡ true
    → has pte_e w ≡ false
    → has pte_u w ≡ true
    → mencrypt q (pos 1) m ≡ ok (pos 0) (encrypted_at q w m)
unfolding mencrypt check_pages uva2ka encrypt_pages store_pte
mencrypt-one q w m a l p e u = rw (a, l) (rw (p, u) (rw (encrypt_page-plain q w m l e p)))

-- A user's page that is encrypted already.
pub mencrypt-sealed :
    (q w : ℕ) (m : Machine)
    → pground_down q ≡ q
    → load_pte q m ≡ some w
    → has pte_e w ≡ true
    → has pte_u w ≡ true
    → mencrypt q (pos 1) m ≡ ok (pos 0) m
unfolding mencrypt check_pages uva2ka encrypt_pages
mencrypt-sealed q w m a l e u =
    rw (a, l) (rw (test w e u) (rw (encrypt_page-sealed q w m l e) refl))
  where
    test : (w : ℕ) → has pte_e w ≡ true → has pte_u w ≡ true → uva2ka_of w ≡ some (pte_page w)
    test w e u = ground arith
