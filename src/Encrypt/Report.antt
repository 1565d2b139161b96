-- ===== src/Encrypt/Report.antt =====
-- `getpgtable` of p5/src/vm.c: the entries of the pages from the highest one of the process on
-- downwards. Addresses and products are 32-bit numbers, so that an address below 0 is one at the
-- top of the address space. What is printed at the end is left out.
pub mod Bounds
use cs537_spring.Prelude.{
  ℕ, zero, suc, ◌+◌, ◌-◌, ◌*◌, ◌/◌, ◌%◌, ◌^◌, ◌≡◌, ◌≤◌, ◌<◌, min, refl, arith, ap, sym, subst, ◌∙◌,
  Bool, true, false, ltb, List, [], ◌∷◌, length, get_elem?, ℤ, pos, negsuc, minus_one, ◌==◌,
  if◌then◌else◌, some, none, Bool-cases, inl, inr,
}
use cs537_spring.Vm.Word.{has, pte_p, pte_w, pte_e, pte_page, pgsize, pdx, ptx, pground_down}
use cs537_spring.Vm.Machine.{
  Machine, load_pte, Result, ok, fault, Command, with_some, and_then, Returns, Returns-bind,
}
use cs537_spring.Vm.Crypt.{add_addr}
use cs537_spring.Vm.Crypt.Pages.{Mapped}

pub record PtEntry : Type 0 where
  pub pdx_of : ℕ
  pub ptx_of : ℕ
  pub ppage : ℕ
  pub present : Bool
  pub writable : Bool
  pub encrypted : Bool

abbrev pub pt_entry : ℕ → ℕ → PtEntry
pt_entry addr w = record {
  pdx_of = pdx addr;
  ptx_of = ptx addr;
  ppage = pte_page w;
  present = has pte_p w;
  writable = has pte_w w;
  encrypted = has pte_e w;
}

-- The loop with `n` rounds left, from round `i` on: the round it ends in and the entries it writes.
abbrev pub written : PtEntry → ℕ × List PtEntry → Command (ℕ × List PtEntry)
written e (i, es) m = ok (i, e ∷ es) m

unfoldable pub write_from : ℕ → ℕ → ℕ → Command (ℕ × List PtEntry)
write_from zero i addr m = ok (i, []) m
write_from (suc n) i addr m =
    let rest = write_from n (i + 1) (add_addr addr (2 ^ 32 - pgsize)) in
    if ltb m.sz (i * pgsize % 2 ^ 32)
    then ok (i, []) m
    else with_some fault (load_pte addr m) λ w. and_then (rest m) (written (pt_entry addr w))

abbrev pub counted : ℕ × List PtEntry → Command (ℤ × List PtEntry)
counted (i, es) m = ok (pos i, es) m

-- `getpgtable`: its result and the entries written. The flag says whether the array is there.
unfoldable pub getpgtable : Bool → ℤ → Command (ℤ × List PtEntry)
unfolding write_from
getpgtable false num m = ok (minus_one, []) m
getpgtable true (negsuc n) m = ok (negsuc n, []) m
getpgtable true (pos n) m =
    and_then (write_from n 0 (pground_down ((m.sz + 2 ^ 32 - 1) % 2 ^ 32)) m) counted
