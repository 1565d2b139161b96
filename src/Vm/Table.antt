-- ===== src/Vm/Table.antt =====
-- `getpgtable` of p6/vm.c: the entries of the pages of the current process, from the highest page
-- down to page 0, which the caller's array receives in this order. The size of a process is below
-- 2 GB, so that it is not negative as an `int`. The entry of each page is read without a test of
-- the pointer.
pub mod Select
use cs537_spring.Prelude.{
  ℕ, zero, suc, ◌+◌, ◌*◌, ◌/◌, Bool, true, false, not, ◌&&◌, ◌||◌, ltb, List, [], ◌∷◌, ◌++◌, length,
  ℤ, pos, minus_one, lt_nat, eq_int, ◌==◌, if◌then◌else◌,
}
use cs537_spring.Vm.Word.{has, pte_p, pte_w, pte_u, pte_e, pte_a, pte_page, pgsize, pdx, ptx}
use cs537_spring.Vm.Machine.{Machine, load_pte, Result, ok, fault, Command, with_some, and_then}
use cs537_spring.Vm.Clock.{searchwset}

pub record PtEntry : Type 0 where
  pub pdx_of : ℕ
  pub ptx_of : ℕ
  pub ppage : ℕ
  pub present : Bool
  pub writable : Bool
  pub user : Bool
  pub encrypted : Bool
  pub ref : Bool

abbrev pub pt_entry : ℕ → ℕ → PtEntry
pt_entry i w = record {
  pdx_of = pdx i;
  ptx_of = ptx i;
  ppage = pte_page w;
  present = has pte_p w;
  writable = has pte_w w;
  user = has pte_u w;
  encrypted = has pte_e w;
  ref = has pte_a w;
}

-- `searchwset(i) != -1`.
abbrev pub in_wset : ℕ → Machine → Bool
in_wset i m = eq_int 1 (searchwset i m)

-- Is the page reported? It is allocated, and in the working set if only these are asked for.
abbrev pub wanted : Bool → ℕ → ℕ → Machine → Bool
wanted wset_only i w m = not (w == 0) && (not wset_only || in_wset i m)

abbrev pub here : Bool → ℕ → ℕ → Machine → List PtEntry
here wset_only i w m = if wanted wset_only i w m then pt_entry i w ∷ [] else []

-- The loop, from page `k` on, with `index` entries written: the entries that it adds.
pub entries_from : Bool → ℤ → ℕ → ℕ → Command (List PtEntry)
entries_from wset_only num zero index m =
    with_some fault (load_pte 0 m) λ w. ok (here wset_only 0 w m) m
entries_from wset_only num (suc k) index m = with_some fault (load_pte (suc k * pgsize) m) λ w.
    let es = here wset_only (suc k * pgsize) w m in
    let rest = entries_from wset_only num k (index + length es) in
    if lt_nat num (index + length es) || eq_int (index + length es) num
    then ok es m
    else and_then (rest m) (λ fs m₁. ok (es ++ fs) m₁)

-- `getpgtable`: the number of entries, and the entries.
pub getpgtable : ℤ → ℤ → Command (ℤ × List PtEntry)
unfolding entries_from
getpgtable num wset_only m =
    if not (eq_int 0 wset_only) && not (eq_int 1 wset_only)
    then ok (minus_one, []) m
    else and_then (entries_from (eq_int 1 wset_only) num (m.sz / pgsize) 0 m)
        λ es m₁. ok (pos (length es), es) m₁
