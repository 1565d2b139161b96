-- ===== src/Vm/Word.antt =====
-- The page table entries of p6/mmu.h as 32-bit words. A flag is one bit of the word; setting and
-- clearing it by `|` and `& ~` is written as an addition or a subtraction of its value.
use cs537_spring.Prelude.{
  ℕ, ◌+◌, ◌-◌, ◌*◌, ◌/◌, ◌%◌, ◌^◌, ◌<◌, ◌≡◌, Bool, true, false, arith, ap, ◌∙◌, ◌==◌, if◌then◌else◌,
}

-- `*pte & flag`, for a flag that is a power of two.
abbrev pub has : ℕ → ℕ → Bool
has flag w = w / flag % 2 == 1

-- `*pte | flag` and `*pte & ~flag`.
abbrev pub set_flag : ℕ → ℕ → ℕ
set_flag flag w = if has flag w then w else w + flag

abbrev pub clear_flag : ℕ → ℕ → ℕ
clear_flag flag w = if has flag w then w - flag else w

-- PTE_P, PTE_W, PTE_U, PTE_A and PTE_E.
abbrev pub pte_p : ℕ
pte_p = 0x001

abbrev pub pte_w : ℕ
pte_w = 0x002

abbrev pub pte_u : ℕ
pte_u = 0x004

abbrev pub pte_a : ℕ
pte_a = 0x020

abbrev pub pte_e : ℕ
pte_e = 0x200

abbrev pub pgsize : ℕ
pgsize = 4096

-- PTE_ADDR as a physical page number, PGROUNDDOWN, PDX and PTX.
abbrev pub pte_page : ℕ → ℕ
pte_page w = w / 4096

abbrev pub pground_down : ℕ → ℕ
pground_down a = a / 4096 * 4096

abbrev pub pdx : ℕ → ℕ
pdx va = va / 0x40_0000 % 1024

abbrev pub ptx : ℕ → ℕ
ptx va = va / 4096 % 1024

-- What a page table entry is after encryption and after decryption.
abbrev pub sealed : ℕ → ℕ
sealed w = clear_flag pte_a (set_flag pte_e (clear_flag pte_p w))

abbrev pub opened : ℕ → ℕ
opened w = set_flag pte_p (clear_flag pte_e w)

-- An encrypted entry is encrypted, absent and not referenced; its page and its other flags stay.
pub record Sealed (w v : ℕ) : Type 0 where
  pub encrypted : has pte_e v ≡ true
  pub absent : has pte_p v ≡ false
  pub unreferenced : has pte_a v ≡ false
  pub user : has pte_u v ≡ has pte_u w
  pub writable : has pte_w v ≡ has pte_w w
  pub page : pte_page v ≡ pte_page w

pub sealed-Sealed : (w : ℕ) → Sealed w (sealed w)
sealed-Sealed w = record {
  encrypted = ground arith;
  absent = ground arith;
  unreferenced = ground arith;
  user = ground arith;
  writable = ground arith;
  page = ground arith;
}

-- A decrypted entry is present and not encrypted; its page and its other flags stay.
pub record Opened (w v : ℕ) : Type 0 where
  pub plain : has pte_e v ≡ false
  pub present : has pte_p v ≡ true
  pub referenced : has pte_a v ≡ has pte_a w
  pub user : has pte_u v ≡ has pte_u w
  pub writable : has pte_w v ≡ has pte_w w
  pub page : pte_page v ≡ pte_page w

pub opened-Opened : (w : ℕ) → Opened w (opened w)
opened-Opened w = record {
  plain = ground arith;
  present = ground arith;
  referenced = ground arith;
  user = ground arith;
  writable = ground arith;
  page = ground arith;
}

-- Clearing the reference bit keeps the page and the other flags.
pub record Unreferenced (w v : ℕ) : Type 0 where
  pub cleared : has pte_a v ≡ false
  pub encrypted : has pte_e v ≡ has pte_e w
  pub present : has pte_p v ≡ has pte_p w
  pub user : has pte_u v ≡ has pte_u w
  pub page : pte_page v ≡ pte_page w

pub clear_a-Unreferenced : (w : ℕ) → Unreferenced w (clear_flag pte_a w)
clear_a-Unreferenced w = record {
  cleared = ground arith;
  encrypted = ground arith;
  present = ground arith;
  user = ground arith;
  page = ground arith;
}

-- The value of an encrypted entry that was present, and of its decryption.
sealed-value :
    (w : ℕ) → has pte_p w ≡ true → has pte_e w ≡ false → sealed w ≡ clear_flag pte_a w + 511
sealed-value w p e = ground arith

opened-value : (v : ℕ) → has pte_p v ≡ true → has pte_e v ≡ false → opened (v + 511) ≡ v
opened-value v p e = ground arith

-- Encrypting and decrypting an entry that was present gives it back but for the reference bit.
pub opened-sealed :
    (w : ℕ) → has pte_p w ≡ true → has pte_e w ≡ false → opened (sealed w) ≡ clear_flag pte_a w
opened-sealed w p e =
    let c = clear_a-Unreferenced w in
    ap opened (sealed-value w p e)
    ∙ opened-value (clear_flag pte_a w) (c.present ∙ p) (c.encrypted ∙ e)

-- Page-aligned 32-bit addresses that share a page table entry are equal.
pub eq_of_entry :
    (a b : ℕ)
    → a < 2 ^ 32
    → b < 2 ^ 32
    → pground_down a ≡ a
    → pground_down b ≡ b
    → pdx a ≡ pdx b
    → ptx a ≡ ptx b
    → a ≡ b
eq_of_entry a b la lb pa pb d t = omega arith
