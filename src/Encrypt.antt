-- ===== src/Encrypt.antt =====
-- The encrypted pages of p5/src/vm.c, the version before the working set of p6: `uva2ka`,
-- `decrypt` and `mencrypt`. The page tables are those of Vm/Machine; p5 has no clock queue. The
-- bytes of a page are written at its kernel address, so the page need not be present. A write
-- through a null kernel address is a fault. The flush of the TLB has no effect on the state.
pub mod Entry
pub mod Range
pub mod Fault
pub mod Restore
pub mod Report
pub mod Copy
mod Tests
use cs537_spring.Prelude.{
  ℕ, zero, suc, ◌+◌, ◌-◌, ◌*◌, ◌%◌, ◌^◌, Bool, true, false, Option, none, some, not, ◌||◌, ◌&&◌,
  leb, ltb, ℤ, pos, negsuc, minus_one, update, ◌==◌, if◌then◌else◌,
}
use cs537_spring.Vm.Word.{
  has, set_flag, clear_flag, pte_p, pte_u, pte_e, pgsize, pte_page, pground_down,
}
use cs537_spring.Vm.Machine.{
  Machine, load_pte, store_pte, Result, ok, fault, Command, and_then, with_some,
}
use cs537_spring.Vm.Crypt.{add_addr}

-- `uva2ka`: the page of a user's entry that is either present or encrypted. The entry is read
-- without a test of the pointer.
abbrev pub user_page : ℕ → Option ℕ
user_page w =
    if not (has pte_u w)
    then none
    else if not (has pte_p w) && not (has pte_e w)
    then none
    else if has pte_p w && has pte_e w
    then none
    else some (pte_page w)

unfoldable pub uva2ka : ℕ → Command (Option ℕ)
uva2ka uva m = with_some fault (load_pte uva m) λ w. ok (user_page w) m

-- `*(kaddr + i) ^= 0xFF` for `n` bytes from `i` on.
unfoldable pub xor_from : ℕ → ℕ → (ℕ → ℕ) → ℕ → ℕ
xor_from zero i f = f
xor_from (suc n) i f = xor_from n (i + 1) (update f i (255 - f i))

-- The loop over the bytes of a page.
abbrev pub xor_page : ℕ → Machine → Machine
xor_page page m = record m { mem = update m.mem page (xor_from pgsize 0 (m.mem page)) }

-- `decrypt`, the handler of a page fault, at an entry and the answer of `uva2ka`.
abbrev pub open_at : ℕ → ℕ → Machine → Option ℕ → Result ℤ
open_at addr w m none = fault
open_at addr w m (some page) =
    let w₁ = clear_flag pte_e (set_flag pte_p w) in
    let m₁ = store_pte addr w₁ (xor_page page m) in
    if has pte_p w₁ then ok (pos 0) m₁ else ok minus_one m₁

abbrev pub decrypt_at : ℕ → Machine → ℕ → Result ℤ
decrypt_at addr m w =
    if has pte_e w
    then and_then (uva2ka addr m) (λ page m₁. open_at addr w m₁ page)
    else ok minus_one m

unfoldable pub decrypt : ℕ → Command ℤ
unfolding uva2ka
decrypt uva m = with_some fault (load_pte (pground_down uva) m) (decrypt_at (pground_down uva) m)

-- The first loop of `mencrypt`: can the `n` pages from `addr` on be accessed?
abbrev pub has_page : Option ℕ → Bool
has_page none = false
has_page (some _) = true

unfoldable pub test_pages : ℕ → ℕ → Command Bool
unfolding uva2ka
test_pages zero addr m = ok true m
test_pages (suc n) addr m =
    let rest = test_pages n (add_addr addr pgsize) in
    and_then (uva2ka addr m) λ page m₁. if has_page page then rest m₁ else ok false m₁

-- The body of its second loop.
abbrev pub seal_at : ℕ → ℕ → Machine → Option ℕ → Result (Unit {0})
seal_at addr w m none = fault
seal_at addr w m (some page) =
    ok tt (store_pte addr (clear_flag pte_p (set_flag pte_e w)) (xor_page page m))

abbrev pub seal_entry : ℕ → Machine → ℕ → Result (Unit {0})
seal_entry addr m w =
    if has pte_e w then ok tt m else and_then (uva2ka addr m) (λ page m₁. seal_at addr w m₁ page)

unfoldable pub seal_page : ℕ → Command (Unit {0})
unfolding uva2ka
seal_page addr m = with_some fault (load_pte addr m) (seal_entry addr m)

unfoldable pub seal_pages : ℕ → ℕ → Command (Unit {0})
unfolding seal_page
seal_pages zero addr m = ok tt m
seal_pages (suc n) addr m =
    and_then (seal_page addr m) λ _ m₁. seal_pages n (add_addr addr pgsize) m₁

-- `mencrypt`. The test of the length is on 32-bit numbers.
unfoldable pub mencrypt : ℕ → ℤ → Command ℤ
unfolding test_pages seal_pages
mencrypt va (negsuc n) m = ok minus_one m
mencrypt va (pos n) m =
    if ltb m.sz (n * pgsize % 2 ^ 32)
    then ok minus_one m
    else and_then (test_pages n (pground_down va) m) λ fine m₁.
      if fine
      then and_then (seal_pages n (pground_down va) m₁) (λ _ m₂. ok (pos 0) m₂)
      else ok minus_one m₁
