-- ===== src/Encrypt/Entry.antt =====
-- The page table entries that p5/src/vm.c encrypts and decrypts.
use cs537_spring.Prelude.{
  ℕ, ◌-◌, zero, suc, ◌+◌, ◌≡◌, Bool, true, false, ◌&&◌, ◌||◌, arith, ap, ◌∙◌, update, if◌then◌else◌,
  some, refl, not,
}
use cs537_spring.Vm.Word.{has, pte_p, pte_u, pte_e, pte_page, set_flag, clear_flag}
use cs537_spring.Vm.Machine.{Machine, load_pte, store_pte, same_entry, load-store, ok}
use cs537_spring.Vm.Crypt.{flip_from}
use cs537_spring.Encrypt.{
  seal_at, and_then, uva2ka, user_page, has_page, xor_from, xor_page, seal_page,
}

-- An entry after encryption and after decryption.
abbrev pub locked : ℕ → ℕ
locked w = clear_flag pte_p (set_flag pte_e w)

abbrev pub unlocked : ℕ → ℕ
unlocked w = clear_flag pte_e (set_flag pte_p w)

-- An encrypted entry is encrypted and absent; its page and its user flag stay.
pub record Locked (w v : ℕ) : Type 0 where
  pub encrypted : has pte_e v ≡ true
  pub absent : has pte_p v ≡ false
  pub user : has pte_u v ≡ has pte_u w
  pub page : pte_page v ≡ pte_page w

pub locked-Locked : (w : ℕ) → Locked w (locked w)
locked-Locked w = record {
  encrypted = ground arith;
  absent = ground arith;
  user = ground arith;
  page = ground arith;
}

locked-value : (w : ℕ) → has pte_p w ≡ true → has pte_e w ≡ false → locked w ≡ w + 511
locked-value w p e = ground arith

unlocked-value : (w : ℕ) → has pte_p w ≡ true → has pte_e w ≡ false → unlocked (w + 511) ≡ w
unlocked-value w p e = ground arith

-- Encrypting and decrypting an entry gives it back.
pub unlocked-locked : (w : ℕ) → has pte_p w ≡ true → has pte_e w ≡ false → unlocked (locked w) ≡ w
unlocked-locked w p e = ap unlocked (locked-value w p e) ∙ unlocked-value w p e

-- The two bytes' complements are the same.
pub xor_from-flip_from : (n i : ℕ) (f : ℕ → ℕ) → xor_from n i f ≡ flip_from n i f
unfolding xor_from flip_from
xor_from-flip_from zero i f = refl
xor_from-flip_from (suc n) i f = xor_from-flip_from n (i + 1) (update f i (255 - f i))

-- A user's page that is either present or encrypted.
abbrev pub is_accessible : ℕ → Bool
is_accessible w = has pte_u w && ((has pte_p w || has pte_e w) && not (has pte_p w && has pte_e w))

pub has_page-user_page : (w : ℕ) → has_page (user_page w) ≡ is_accessible w
has_page-user_page w = ground arith

pub user_page-accessible : (w : ℕ) → is_accessible w ≡ true → user_page w ≡ some (pte_page w)
user_page-accessible w h = ground arith

-- The state after the page of an entry has been flipped and its entry locked or unlocked.
abbrev pub locked_at : ℕ → ℕ → Machine → Machine
locked_at a w m = store_pte a (locked w) (xor_page (pte_page w) m)

abbrev pub unlocked_at : ℕ → ℕ → Machine → Machine
unlocked_at a w m = store_pte a (unlocked w) (xor_page (pte_page w) m)

pub load-xor_page : (a page : ℕ) (m : Machine) → load_pte a (xor_page page m) ≡ load_pte a m
unfolding load_pte
load-xor_page a page m = refl

pub load-locked_at :
    (a b w : ℕ) (m : Machine)
    → load_pte a m ≡ some w
    → load_pte b (locked_at a w m) ≡ (if same_entry a b then some (locked w) else load_pte b m)
load-locked_at a b w m e =
    load-store a b (locked w) w (xor_page (pte_page w) m) (load-xor_page a (pte_page w) m ∙ e)
    ∙ ap (λ o. if same_entry a b then some (locked w) else o) (load-xor_page b (pte_page w) m)

pub load-unlocked_at :
    (a b w : ℕ) (m : Machine)
    → load_pte a m ≡ some w
    → load_pte b (unlocked_at a w m) ≡ (if same_entry a b then some (unlocked w) else load_pte b m)
load-unlocked_at a b w m e =
    load-store a b (unlocked w) w (xor_page (pte_page w) m) (load-xor_page a (pte_page w) m ∙ e)
    ∙ ap (λ o. if same_entry a b then some (unlocked w) else o) (load-xor_page b (pte_page w) m)

pub uva2ka-accessible :
    (a w : ℕ) (m : Machine)
    → load_pte a m ≡ some w
    → is_accessible w ≡ true
    → uva2ka a m ≡ ok (some (pte_page w)) m
unfolding uva2ka
uva2ka-accessible a w m l h = rw (l, user_page-accessible w h) refl

pub seal_page-plain :
    (a w : ℕ) (m : Machine)
    → load_pte a m ≡ some w
    → is_accessible w ≡ true
    → has pte_e w ≡ false
    → seal_page a m ≡ ok tt (locked_at a w m)
unfolding seal_page
seal_page-plain a w m l h e = rw l (
    ap (λ b. if b then ok tt m else and_then (uva2ka a m) (λ page m₁. seal_at a w m₁ page)) e
    ∙ rw (uva2ka-accessible a w m l h) refl)

pub seal_page-sealed :
    (a w : ℕ) (m : Machine) → load_pte a m ≡ some w → has pte_e w ≡ true → seal_page a m ≡ ok tt m
unfolding seal_page
seal_page-sealed a w m l e = rw (l, e) refl
