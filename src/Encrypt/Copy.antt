-- ===== src/Encrypt/Copy.antt =====
-- `copyout` and `dump_rawphymem` of p5/src/vm.c: the loop of Vm/Copy with the `uva2ka` of p5.
use cs537_spring.Prelude.{
  ℕ, ◌+◌, ◌-◌, ◌%◌, ◌^◌, ◌≡◌, ◌≤◌, ◌<◌, refl, arith, ap, sym, ◌∙◌, none, some, subst, true, ℤ, pos,
  minus_one, inl, inr, leb, ltb, ◌&&◌, if◌then◌else◌, update_self,
}
use cs537_spring.Vm.Word.{has, pte_e, pte_page, pgsize, pground_down}
use cs537_spring.Vm.Machine.{
  Machine, Command, ok, fault, load_pte, store-SameRest, Returns, Returns-bind, and_then,
}
use cs537_spring.Vm.Crypt.Flip.{flip_from_lem}
use cs537_spring.Vm.Copy.{copy_from, physical}
use cs537_spring.Vm.Copy.Copied.{CopyEnd, copy_from-Copied}
use cs537_spring.Encrypt.{uva2ka, xor_from, xor_page, decrypt}
use cs537_spring.Encrypt.Entry.{
  is_accessible, unlocked, unlocked_at, uva2ka-accessible, xor_from-flip_from,
}
use cs537_spring.Encrypt.Fault.{decrypt_lem}

abbrev pub copyout : (Machine → ℕ → ℕ) → ℕ → ℕ → Command ℤ
copyout buf va len = copy_from uva2ka buf len 0 va len

abbrev pub dump_rawphymem : ℕ → ℕ → Command ℤ
dump_rawphymem physical_addr buffer = copyout (physical physical_addr) buffer pgsize

load-dir : (a : ℕ) (m m' : Machine) → m'.dir ≡ m.dir → load_pte a m' ≡ load_pte a m
unfolding load_pte
load-dir a m m' e = ground arith

-- The byte of a page that a fault has decrypted.
unlocked_at-byte :
    (a w j : ℕ) (m : Machine)
    → j < pgsize
    → (unlocked_at a w m).mem (pte_page w) j ≡ 255 - m.mem (pte_page w) j
unlocked_at-byte a w j m l =
    let there : (leb 0 j && ltb j (0 + pgsize)) ≡ true = ground arith in
    ap (λ (f : ℕ → ℕ → ℕ). f (pte_page w) j)
      (store-SameRest a (unlocked w) (xor_page (pte_page w) m)).mem
    ∙ ap (λ (f : ℕ → ℕ). f j)
        (update_self m.mem (pte_page w) (xor_from pgsize 0 (m.mem (pte_page w))))
    ∙ ap (λ (f : ℕ → ℕ). f j) (xor_from-flip_from pgsize 0 (m.mem (pte_page w)))
    ∙ flip_from_lem pgsize 0 j (m.mem (pte_page w))
    ∙ rw there refl

module _ (bytes : ℕ → ℕ) (a n w : ℕ) (m : Machine) (aligned : pground_down a ≡ a)
    (small : a + n < 2 ^ 32) (inside : n ≤ pgsize) (loaded : load_pte a m ≡ some w)
    (accessible : is_accessible w ≡ true) where
  copied : Returns (CopyEnd (λ _. some (pte_page w)) bytes a n m) (copyout (λ _. bytes) a n m)
  copied =
      copy_from-Copied uva2ka (λ _. some (pte_page w)) bytes m a n small
        (λ b m' e al lo hi.
          subst (λ x. uva2ka x m' ≡ ok (some (pte_page w)) m') {x = a} {y = b} (omega arith)
            (uva2ka-accessible a w m' (load-dir a m m' e ∙ loaded) accessible))
        (λ b c f bl cl b0 b1 c0 c1 _ _. omega arith)

  faulted :
      (r : ℤ) (m₁ : Machine)
      → has pte_e w ≡ true
      → CopyEnd (λ _. some (pte_page w)) bytes a n m r m₁
      → Returns
          (λ r' m'.
            (r ≡ pos 0) × (r' ≡ pos 0) × ((j : ℕ) → j < n → m'.mem (pte_page w) j ≡ 255 - bytes j))
          (decrypt a m₁)
  faulted r m₁ enc (inr (_, end, _, _, e, _)) = absurd (some_none (pte_page w) e)
    where
      some_none : (f : ℕ) → some f ≡ none → ⊥
      some_none f q = cc
  faulted r m₁ enc (inl (z, c)) =
      subst
        (Returns λ r' m'.
          (r ≡ pos 0) × (r' ≡ pos 0) × ((j : ℕ) → j < n → m'.mem (pte_page w) j ≡ 255 - bytes j))
        (sym opened)
        (
          z,
          refl,
          λ j l.
              unlocked_at-byte (pground_down a) w j m₁ (omega arith) ∙ ap (λ x. 255 - x) (byte j l),
        )
    where
      opened : decrypt a m₁ ≡ ok (pos 0) (unlocked_at (pground_down a) w m₁)
      opened =
          (decrypt_lem a m₁).0 w (ap (λ x. load_pte x m₁) aligned ∙ load-dir a m m₁ c.dir ∙ loaded)
          ∙ ap
              (λ x.
                if x
                then if is_accessible w
                  then ok (pos 0) (unlocked_at (pground_down a) w m₁)
                  else fault
                else ok minus_one m₁)
              enc
          ∙ ap (λ x. if x then ok (pos 0) (unlocked_at (pground_down a) w m₁) else fault) accessible

      byte : (j : ℕ) → j < n → m₁.mem (pte_page w) j ≡ bytes j
      byte j l =
          ap (m₁.mem (pte_page w)) {x = j} {y = (a + j) % 4096} (omega arith)
          ∙ c.written (a + j) (pte_page w) (omega arith) (omega arith) refl
          ∙ ap bytes {x = a + j - a} {y = j} (omega arith)

  -- `copyout` of at most a page of bytes to the start of a user's encrypted page succeeds, and
  -- writes them as they are: after the fault at that page, which is handled, the process finds the
  -- complement of each byte.
  pub copyout-decrypt :
      has pte_e w ≡ true
      → Returns {A = ℤ × ℤ}
          (λ r m'.
            (r.0 ≡ pos 0)
            × (r.1 ≡ pos 0)
            × ((j : ℕ) → j < n → m'.mem (pte_page w) j ≡ 255 - bytes j))
          (and_then
            (copyout (λ _. bytes) a n m)
            λ r m₁. and_then (decrypt a m₁) (λ r' m'. ok (r, r') m'))
  copyout-decrypt enc =
      Returns-bind (CopyEnd (λ _. some (pte_page w)) bytes a n m) _ (copyout (λ _. bytes) a n m) _
        copied
        λ r m₁ h.
          Returns-bind
            (λ r' m'.
              (r ≡ pos 0)
              × (r' ≡ pos 0)
              × ((j : ℕ) → j < n → m'.mem (pte_page w) j ≡ 255 - bytes j))
            _ (decrypt a m₁) _ (faulted r m₁ enc h) (λ r' m' q. q)
