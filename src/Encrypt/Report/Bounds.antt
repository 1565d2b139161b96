-- ===== src/Encrypt/Report/Bounds.antt =====
-- How much `getpgtable` of p5/src/vm.c reports.
use cs537_spring.Prelude.{
  ℕ, zero, suc, ◌+◌, ◌-◌, ◌*◌, ◌%◌, ◌^◌, ◌≡◌, ◌≤◌, ◌<◌, min, refl, arith, ap, subst, true, ltb,
  List, ◌∷◌, length, get_elem?, pos, if◌then◌else◌, some, Bool-cases, inl, inr,
}
use cs537_spring.Vm.Word.{pgsize, pground_down}
use cs537_spring.Vm.Machine.{Machine, load_pte, Returns, Returns-bind}
use cs537_spring.Vm.Crypt.{add_addr}
use cs537_spring.Vm.Crypt.Pages.{Mapped}
use cs537_spring.Encrypt.Report.{PtEntry, pt_entry, written, write_from, getpgtable}

-- The page of the entry at index `i`, for a process of `k` pages: its pages downwards, and then the
-- last page of the address space, which belongs to the kernel.
abbrev pub reported : ℕ → ℕ → ℕ
reported k i = if ltb i k then (k - 1 - i) * pgsize else 0xffff_f000

-- The entries written from round `i` on.
abbrev pub Written : Machine → ℕ → ℕ → List PtEntry → Type 0
Written m k i es =
    (j : ℕ)
    → j < length es
    → (w : ℕ) × (load_pte (reported k (i + j)) m ≡ some w)
      × (get_elem? es j ≡ some (pt_entry (reported k (i + j)) w))

reported_next :
    (k i : ℕ) → k < 2 ^ 19 → i < k → add_addr (reported k i) (2 ^ 32 - pgsize) ≡ reported k (i + 1)
reported_next k i l h = ground arith

reported_first :
    (k sz : ℕ)
    → k < 2 ^ 19
    → sz ≡ k * pgsize
    → pground_down ((sz + 2 ^ 32 - 1) % 2 ^ 32) ≡ reported k 0
reported_first k sz l e = ground arith

-- What the loop leaves behind from round `i` on.
abbrev Ended : Machine → ℕ → ℕ → ℕ → ℕ × List PtEntry → Machine → Type 0
Ended m k n i r m' =
    (m' ≡ m) × (r.0 ≡ i + length r.1) × (length r.1 ≡ min n (k + 1 - i)) × Written m k i r.1

Ended-written :
    (m : Machine) (k n i w : ℕ) (r : ℕ × List PtEntry) (m' : Machine)
    → i ≤ k
    → load_pte (reported k i) m ≡ some w
    → Ended m k n (i + 1) r m'
    → Returns (Ended m k (suc n) i) (written (pt_entry (reported k i) w) r m')
Ended-written m k n i w (c, es) m' l e (same, count, len, rows) =
    (same, omega (arith, count), omega (arith, len), all)
  where
    all : Written m k i (pt_entry (reported k i) w ∷ es)
    all zero h =
        subst
          (λ x.
            (v : ℕ) × (load_pte (reported k x) m ≡ some v)
            × (some (pt_entry (reported k i) w) ≡ some (pt_entry (reported k x) v)))
          {x = i} {y = i + 0} (omega arith) (w, e, refl)
    all (suc j) h =
        subst
          (λ x.
            (v : ℕ) × (load_pte (reported k x) m ≡ some v)
            × (get_elem? es j ≡ some (pt_entry (reported k x) v)))
          {x = i + 1 + j} {y = i + suc j} (omega arith) (rows j (omega arith))

write_from-Ended :
    (m : Machine) (k : ℕ)
    → m.sz ≡ k * pgsize
    → k < 2 ^ 19
    → ((i : ℕ) → i ≤ k → Mapped m (reported k i))
    → (n i addr : ℕ) → i ≤ k + 1
    → (i ≤ k → addr ≡ reported k i)
    → Returns (Ended m k n i) (write_from n i addr m)
unfolding write_from
write_from-Ended m k s small mapped zero i addr l a =
    (refl, omega arith, omega arith, λ j h. absurd (omega arith))
write_from-Ended m k s small mapped (suc n) i addr l a =
    elim (Bool-cases (ltb m.sz (i * pgsize % 2 ^ 32))) [
      | inl t ↦
          let past : i ≡ k + 1 = ground arith in
          rw t (refl, omega arith, omega arith, λ j h. absurd (omega arith))
      | inr t ↦
          let inside : i ≤ k = ground arith in
          let (w, e) = mapped i inside in
          rw (t, a inside, e)
            (Returns-bind (Ended m k n (i + 1)) _
              (write_from n (i + 1) (add_addr (reported k i) (2 ^ 32 - pgsize)) m) _
              (write_from-Ended m k s small mapped n (i + 1)
                (add_addr (reported k i) (2 ^ 32 - pgsize)) (omega arith)
                λ h. reported_next k i small (omega arith))
              λ r m' h. Ended-written m k n i w r m' inside e h)
    ]

-- For a process of `k` whole pages, below 2 GB, whose pages have page tables as has the last page of
-- the address space, `getpgtable` with an array for `num` entries returns, and changes nothing. The
-- result is the number of the entries written, which is `num` but at most one more than `k`. They
-- are those of the pages of the process from the highest one down; if `num` is greater than `k`,
-- the last of them is the kernel's page at the top of the address space.
pub getpgtable-Written :
    (k num : ℕ) (m : Machine)
    → m.sz ≡ k * pgsize
    → k < 2 ^ 19
    → ((i : ℕ) → i ≤ k → Mapped m (reported k i))
    → Returns
        (λ r m'.
          (m' ≡ m) × (r.0 ≡ pos (length r.1)) × (length r.1 ≡ min num (k + 1)) × Written m k 0 r.1)
        (getpgtable true (pos num) m)
unfolding getpgtable
getpgtable-Written k num m s small mapped =
    Returns-bind (Ended m k num 0) _
      (write_from num 0 (pground_down ((m.sz + 2 ^ 32 - 1) % 2 ^ 32)) m) _
      (write_from-Ended m k s small mapped num 0 (pground_down ((m.sz + 2 ^ 32 - 1) % 2 ^ 32))
        (omega arith) λ h. reported_first k m.sz small s)
      λ r m' h.
        (h.0, ap pos {x = r.0} {y = length r.1} (omega (arith, h.1)), omega (arith, h.2), h.3)
