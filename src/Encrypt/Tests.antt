-- ===== src/Encrypt/Tests.antt =====
-- A process of three pages, and the theorems at it.
use cs537_spring.Prelude.{
  ℕ, ◌+◌, ◌-◌, ◌*◌, ◌%◌, ◌≡◌, ◌≤◌, ◌<◌, refl, arith, some, none, ℤ, pos, negsuc, minus_one, length,
  min, true, false, ◌==◌, if◌then◌else◌, Bool-cases, inl, inr, subst, sym,
}
use cs537_spring.Vm.Machine.{Machine, ok, load_pte, empty_slot, Returns, and_then}
use cs537_spring.Vm.Crypt.Pages.{Mapped, Pages}
use cs537_spring.Encrypt.{mencrypt, decrypt}
use cs537_spring.Encrypt.Range.{Encryption, mencrypt-Encryption}
use cs537_spring.Encrypt.Restore.{SameState, mencrypt-decrypt}
use cs537_spring.Encrypt.Report.{getpgtable}
use cs537_spring.Encrypt.Report.Bounds.{reported, Written, getpgtable-Written}
use cs537_spring.Encrypt.Copy.{copyout, copyout-decrypt}

-- The pages 0 and 1 are present, page 2 is encrypted. The kernel has the last page table.
abbrev user_table : ℕ → ℕ
user_table i =
    if i == 0 then 16 * 4096 + 0x007 else if i == 1 then 17 * 4096 + 0x007 else 18 * 4096 + 0x206

abbrev process : Machine
process = record {
  dir = λ d.
      if d == 0 then some user_table else if d == 1023 then some (λ i. i * 4096 + 0x003) else none;
  mem = λ k j. (k + j) % 256;
  sz = 12288;
  clockqueue = λ s. empty_slot;
  clockhand = minus_one;
}

two-Mapped : Pages (Mapped process) 2 0
unfolding load_pte
two-Mapped = ((16 * 4096 + 0x007, refl), ((17 * 4096 + 0x007, refl), tt))

mencrypt-Encryption_example :
    Returns (Encryption 5 2 process) (mencrypt 5 (pos 2) process)
    × ((k : ℕ) → mencrypt 5 (negsuc k) process ≡ ok minus_one process)
mencrypt-Encryption_example = mencrypt-Encryption 5 2 process two-Mapped

loaded_one : load_pte 4096 process ≡ some (17 * 4096 + 0x007)
unfolding load_pte
loaded_one = refl

mencrypt-decrypt_example :
    Returns
      (λ r m'. (r ≡ pos 0) × SameState process m')
      (and_then (mencrypt 4100 (pos 1) process) (λ _ m₁. decrypt 5000 m₁))
mencrypt-decrypt_example =
    mencrypt-decrypt 4100 5000 (17 * 4096 + 0x007) process (omega arith) refl loaded_one refl refl

all-Mapped : (i : ℕ) → i ≤ 3 → Mapped process (reported 3 i)
unfolding load_pte
all-Mapped i l = elim (Bool-cases (i == 0)) [
  | inl a ↦ subst (λ k. Mapped process (reported 3 k)) (sym (equal i 0 a)) (18 * 4096 + 0x206, refl)
  | inr a ↦ elim (Bool-cases (i == 1)) [
    | inl b ↦
        subst (λ k. Mapped process (reported 3 k)) (sym (equal i 1 b)) (17 * 4096 + 0x007, refl)
    | inr b ↦ elim (Bool-cases (i == 2)) [
      | inl c ↦
          subst (λ k. Mapped process (reported 3 k)) (sym (equal i 2 c)) (16 * 4096 + 0x007, refl)
      | inr c ↦
          subst (λ k. Mapped process (reported 3 k)) {x = 3} {y = i} (last i l a b c)
            (1023 * 4096 + 0x003, refl)
    ]
  ]
]
  where
    equal : (i k : ℕ) → (i == k) ≡ true → i ≡ k
    equal i k e = ground arith

    last : (i : ℕ) → i ≤ 3 → (i == 0) ≡ false → (i == 1) ≡ false → (i == 2) ≡ false → 3 ≡ i
    last i l a b c = ground arith

getpgtable-Written_example :
    Returns
      (λ r m'.
        (m' ≡ process)
        × (r.0 ≡ pos (length r.1))
        × (length r.1 ≡ min 8 (3 + 1))
        × Written process 3 0 r.1)
      (getpgtable true (pos 8) process)
getpgtable-Written_example = getpgtable-Written 3 8 process refl (omega arith) all-Mapped

loaded_two : load_pte 8192 process ≡ some (18 * 4096 + 0x206)
unfolding load_pte
loaded_two = refl

copyout-decrypt_example :
    Returns {A = ℤ × ℤ}
      (λ r m'. (r.0 ≡ pos 0) × (r.1 ≡ pos 0) × ((j : ℕ) → j < 10 → m'.mem 18 j ≡ 255 - j))
      (and_then
        (copyout (λ _ j. j) 8192 10 process)
        λ r m₁. and_then (decrypt 8192 m₁) (λ r' m'. ok (r, r') m'))
copyout-decrypt_example =
    copyout-decrypt (λ j. j) 8192 10 (18 * 4096 + 0x206) process refl (omega arith) (omega arith)
      loaded_two refl refl
