-- ===== src/Encrypt/Fault.antt =====
-- `decrypt` of p5/src/vm.c, the page fault on an encrypted page, and `decrypt` after `mencrypt`.
use cs537_spring.Prelude.{
  ℕ, ◌≡◌, refl, Bool, true, false, arith, some, none, pos, minus_one, ap, sym, ◌∙◌, if◌then◌else◌,
  Bool-cases, inl, inr,
}
use cs537_spring.Vm.Word.{has, pte_p, pte_e, pground_down}
use cs537_spring.Vm.Machine.{Machine, ok, fault, load_pte, and_then}
use cs537_spring.Encrypt.{uva2ka, user_page, decrypt, decrypt_at, open_at}
use cs537_spring.Encrypt.Entry.{unlocked, is_accessible, unlocked_at, uva2ka-accessible}

unlocked_present : (w : ℕ) → has pte_p (unlocked w) ≡ true
unlocked_present w = ground arith

user_page-none : (w : ℕ) → is_accessible w ≡ false → user_page w ≡ none
user_page-none w h = ground arith

uva2ka-none :
    (a w : ℕ) (m : Machine)
    → load_pte a m ≡ some w
    → is_accessible w ≡ false
    → uva2ka a m ≡ ok none m
unfolding uva2ka
uva2ka-none a w m l h = rw (l, user_page-none w h) refl

decrypt_at-encrypted :
    (a w : ℕ) (m : Machine)
    → has pte_e w ≡ true
    → decrypt_at a m w ≡ and_then (uva2ka a m) (λ page m₁. open_at a w m₁ page)
decrypt_at-encrypted a w m e =
    ap (λ b. if b then and_then (uva2ka a m) (λ page m₁. open_at a w m₁ page) else ok minus_one m) e

-- A fault at a page with an entry. If the page is not encrypted, it is not handled, and nothing
-- changes. An encrypted page of the user that is absent is decrypted, and the result is 0. Any
-- other encrypted page is written through a null pointer. At an address without a page table the
-- entry itself is read through a null pointer.
pub decrypt_lem :
    (va : ℕ) (m : Machine)
    → (let a = pground_down va in
        ((w : ℕ)
          → load_pte a m ≡ some w
          → decrypt va m ≡ (
              if has pte_e w
              then if is_accessible w then ok (pos 0) (unlocked_at a w m) else fault
              else ok minus_one m))
        × (load_pte a m ≡ none → decrypt va m ≡ fault))
unfolding decrypt
decrypt_lem va m = (at_entry, λ e. rw e refl)
  where
    a : ℕ
    a = pground_down va

    opened :
        (w : ℕ) (b : Bool)
        → is_accessible w ≡ b
        → load_pte a m ≡ some w
        → and_then (uva2ka a m) (λ page m₁. open_at a w m₁ page)
          ≡ (if b then ok (pos 0) (unlocked_at a w m) else fault)
    opened w true h l = rw (uva2ka-accessible a w m l h) (
        ap (λ b. if b then ok (pos 0) (unlocked_at a w m) else ok minus_one (unlocked_at a w m))
          (unlocked_present w))
    opened w false h l = rw (uva2ka-none a w m l h) refl

    at_entry :
        (w : ℕ)
        → load_pte a m ≡ some w
        → decrypt va m ≡ (
            if has pte_e w
            then if is_accessible w then ok (pos 0) (unlocked_at a w m) else fault
            else ok minus_one m)
    at_entry w l = rw l (elim (Bool-cases (has pte_e w)) [
      | inl e ↦
          decrypt_at-encrypted a w m e
          ∙ opened w (is_accessible w) refl l
          ∙ ap
              (λ b.
                if b
                then (if is_accessible w then ok (pos 0) (unlocked_at a w m) else fault)
                else ok minus_one m)
              (sym e)
      | inr e ↦
          ap
            (λ b.
              if b then and_then (uva2ka a m) (λ page m₁. open_at a w m₁ page) else ok minus_one m)
            e
          ∙ ap
              (λ b.
                if b
                then (if is_accessible w then ok (pos 0) (unlocked_at a w m) else fault)
                else ok minus_one m)
              (sym e)
    ])
