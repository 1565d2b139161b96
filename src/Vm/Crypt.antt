-- ===== src/Vm/Crypt.antt =====
-- `uva2ka` and `mencrypt` of p6/vm.c. A user address is accessed
-- through the page table: the byte loops of `mencrypt` and `mdecrypt` stay within one page, and
-- write the physical page of its entry. The reload of the page table by `switchuvm` has no effect
-- on the state.
pub mod Flip
pub mod Pages
pub mod Sealing
pub mod Range
use cs537_spring.Prelude.{
  ℕ, zero, suc, ◌+◌, ◌-◌, ◌%◌, ◌^◌, Bool, true, false, Option, none, some, not, ◌||◌, leb, ℤ, pos,
  negsuc, minus_one, to_nat, update, ◌==◌, if◌then◌else◌,
}
use cs537_spring.Vm.Word.{
  has, set_flag, clear_flag, pte_p, pte_u, pte_a, pte_e, pgsize, pte_page, pground_down,
}
use cs537_spring.Vm.Machine.{
  Machine, empty_slot, load_pte, store_pte, Result, ok, fault, out_of_fuel, Command, and_then,
  with_some,
}

abbrev pub kernbase : ℕ
kernbase = 0x8000_0000

-- 32-bit addition of addresses.
abbrev pub add_addr : ℕ → ℕ → ℕ
add_addr a b = (a + b) % 2 ^ 32

-- `uva2ka`: the physical page behind a user address. The entry is read without a test of the
-- pointer. The kernel address is that of the page.
abbrev pub uva2ka_of : ℕ → Option ℕ
uva2ka_of w =
    if not (has pte_p w || has pte_e w)
    then none
    else if not (has pte_u w)
    then none
    else some (pte_page w)

unfoldable pub uva2ka : ℕ → Command (Option ℕ)
uva2ka uva m = with_some fault (load_pte uva m) λ w. ok (uva2ka_of w) m

-- `*slider = ~*slider; slider++` for `n` bytes of a page, from offset `i` on.
unfoldable pub flip_from : ℕ → ℕ → (ℕ → ℕ) → ℕ → ℕ
flip_from zero i f = f
flip_from (suc n) i f = flip_from n (i + 1) (update f i (255 - f i))

-- The loop over all bytes of the page of the entry `w`. An access to a page that is not present
-- would raise a page fault inside the kernel.
unfoldable pub flip_page : ℕ → Command (Unit {0})
flip_page w m =
    if has pte_p w
    then ok tt
        (record m { mem = update m.mem (pte_page w) (flip_from pgsize 0 (m.mem (pte_page w))) })
    else fault

abbrev pub is_some : Option ℕ → Bool
is_some none = false
is_some (some _) = true

-- The first loop of `mencrypt`: can all pages be accessed?
pub check_pages : ℕ → ℕ → Command Bool
check_pages zero slider m = ok true m
check_pages (suc n) slider m =
    let rest = check_pages n (add_addr slider pgsize) in
    and_then (uva2ka slider m) λ page m₁. if is_some page then rest m₁ else ok false m₁

-- The second loop's body: an encrypted page is passed over; any other is flipped, then marked.
encrypt_entry : ℕ → ℕ → Command (Unit {0})
encrypt_entry slider w m =
    if has pte_e w
    then ok tt m
    else and_then (flip_page w m) λ _ m₁.
      let w₁ = clear_flag pte_p w in
      let w₂ = set_flag pte_e w₁ in ok tt (store_pte slider (clear_flag pte_a w₂) m₁)

pub encrypt_page : ℕ → Command (Unit {0})
unfolding encrypt_entry
encrypt_page slider m = with_some fault (load_pte slider m) λ w. encrypt_entry slider w m

pub encrypt_pages : ℕ → ℕ → Command (Unit {0})
encrypt_pages zero slider m = ok tt m
encrypt_pages (suc n) slider m =
    and_then (encrypt_page slider m) λ _ m₁. encrypt_pages n (add_addr slider pgsize) m₁

-- `mencrypt`, with its length as the number of rounds; a length that is not positive has none.
pub mencrypt : ℕ → ℤ → Command ℤ
mencrypt va len m = and_then (check_pages (to_nat len) (pground_down va) m) λ fine m₁.
    if fine
    then and_then (encrypt_pages (to_nat len) (pground_down va) m₁) (λ _ m₂. ok (pos 0) m₂)
    else ok minus_one m₁
