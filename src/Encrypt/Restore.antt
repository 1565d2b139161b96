-- ===== src/Encrypt/Restore.antt =====
-- `decrypt` after `mencrypt`, in p5/src/vm.c.
use cs537_spring.Prelude.{
  ℕ, ◌*◌, ◌%◌, ◌^◌, ◌≡◌, ◌≤◌, ◌<◌, refl, true, false, arith, some, pos, minus_one, ap, sym, subst,
  ◌∙◌, update, update_twice, ltb, if◌then◌else◌, Bool-cases, inl, inr,
}
use cs537_spring.Vm.Word.{has, pte_p, pte_e, pte_page, pgsize, pground_down}
use cs537_spring.Vm.Machine.{
  Machine, ok, fault, load_pte, same_entry, load-same_entry, SameRest, store-SameRest, Returns,
  and_then,
}
use cs537_spring.Vm.Crypt.{flip_from}
use cs537_spring.Vm.Crypt.Flip.{flip_from-flip_from}
use cs537_spring.Encrypt.{xor_from, xor_page, test_pages, seal_pages, mencrypt, decrypt}
use cs537_spring.Encrypt.Entry.{
  locked, locked-Locked, unlocked, unlocked-locked, is_accessible, locked_at, unlocked_at,
  load-locked_at, load-unlocked_at, seal_page-plain, uva2ka-accessible, xor_from-flip_from,
}
use cs537_spring.Encrypt.Fault.{decrypt_lem}

-- A state with the same entries and sizes, and the same bytes.
pub record SameState (m m' : Machine) : Type 0 where
  pub entries : (b : ℕ) → load_pte b m' ≡ load_pte b m
  pub bytes : (k j : ℕ) → m.mem k j < 256 → m'.mem k j ≡ m.mem k j
  pub sz : m'.sz ≡ m.sz

xor_twice : (j : ℕ) (f : ℕ → ℕ) → f j < 256 → xor_from pgsize 0 (xor_from pgsize 0 f) j ≡ f j
xor_twice j f h =
    ap (λ (g : ℕ → ℕ). xor_from pgsize 0 g j) (xor_from-flip_from pgsize 0 f)
    ∙ ap (λ (g : ℕ → ℕ). g j) (xor_from-flip_from pgsize 0 (flip_from pgsize 0 f))
    ∙ flip_from-flip_from pgsize 0 j f h

same_entry_self : (a : ℕ) → same_entry a a ≡ true
same_entry_self a = ground arith

SameState-unlocked_at :
    (a w : ℕ) (m : Machine)
    → load_pte a m ≡ some w
    → has pte_p w ≡ true
    → has pte_e w ≡ false
    → SameState m (unlocked_at a (locked w) (locked_at a w m))
SameState-unlocked_at a w m l p e = record {
  entries = λ b. elim (Bool-cases (same_entry a b)) [
    | inl y ↦
        load-unlocked_at a b (locked w) m₁ l₁
        ∙ rw y (ap some (unlocked-locked w p e) ∙ sym l ∙ sym (load-same_entry a b m y))
    | inr n ↦ load-unlocked_at a b (locked w) m₁ l₁ ∙ rw n (load-locked_at a b w m l ∙ rw n refl)
  ];
  bytes = λ k j lt.
      ap (λ (f : ℕ → ℕ → ℕ). f k j) d.mem
      ∙ ap
          (λ (f : ℕ → ℕ → ℕ).
            update f (pte_page (locked w)) (xor_from pgsize 0 (f (pte_page (locked w)))) k j)
          s.mem
      ∙ ap (λ n. update flipped.mem n (xor_from pgsize 0 (flipped.mem n)) k j)
          (locked-Locked w).page
      ∙ update_twice m.mem (xor_from pgsize 0) (pte_page w) k j
          λ x. xor_twice j (m.mem (pte_page w)) (subst (λ i. m.mem i j < 256) (sym x) lt);
  sz = d.sz ∙ s.sz;
}
  where
    m₁ : Machine
    m₁ = locked_at a w m

    l₁ : load_pte a m₁ ≡ some (locked w)
    l₁ = load-locked_at a a w m l ∙ rw (same_entry_self a) refl

    flipped : Machine
    flipped = xor_page (pte_page w) m

    s : SameRest flipped m₁
    s = store-SameRest a (locked w) flipped

    d : SameRest (xor_page (pte_page (locked w)) m₁) (unlocked_at a (locked w) m₁)
    d = store-SameRest a (unlocked (locked w)) (xor_page (pte_page (locked w)) m₁)

-- One page.
mencrypt-one :
    (va w : ℕ) (m : Machine)
    → pgsize ≤ m.sz
    → load_pte (pground_down va) m ≡ some w
    → is_accessible w ≡ true
    → has pte_e w ≡ false
    → mencrypt va (pos 1) m ≡ ok (pos 0) (locked_at (pground_down va) w m)
unfolding mencrypt test_pages seal_pages
mencrypt-one va w m s l h e =
    let fits : ltb m.sz (1 * pgsize % 2 ^ 32) ≡ false = ground arith in
    rw
      (
        fits,
        uva2ka-accessible (pground_down va) w m l h,
        seal_page-plain (pground_down va) w m l h e,
      )
      refl

-- A user's page that is present and not encrypted is encrypted by `mencrypt` of one page, called
-- with any address in it, in a process that has a page at least. A fault at any address of the page
-- then succeeds, and every entry, every byte and the size are as before the two calls.
pub mencrypt-decrypt :
    (va vb w : ℕ) (m : Machine)
    → pgsize ≤ m.sz
    → pground_down vb ≡ pground_down va
    → load_pte (pground_down va) m ≡ some w
    → is_accessible w ≡ true
    → has pte_e w ≡ false
    → Returns
        (λ r m'. (r ≡ pos 0) × SameState m m')
        (and_then (mencrypt va (pos 1) m) (λ _ m₁. decrypt vb m₁))
mencrypt-decrypt va vb w m s q l h e = rw (mencrypt-one va w m s l h e) (
    subst (Returns (λ r m'. (r ≡ pos 0) × SameState m m')) (sym opened)
      (refl, SameState-unlocked_at a w m l (present w h e) e))
  where
    a : ℕ
    a = pground_down va

    present : (w : ℕ) → is_accessible w ≡ true → has pte_e w ≡ false → has pte_p w ≡ true
    present w h e = ground arith

    still : (w : ℕ) → is_accessible w ≡ true → has pte_e w ≡ false → is_accessible (locked w) ≡ true
    still w h e = let k = locked-Locked w in rw (k.user, k.encrypted, k.absent) (ground arith)

    l₁ : load_pte (pground_down vb) (locked_at a w m) ≡ some (locked w)
    l₁ = rw q (load-locked_at a a w m l ∙ rw (same_entry_self a) refl)

    opened : decrypt vb (locked_at a w m) ≡ ok (pos 0) (unlocked_at a (locked w) (locked_at a w m))
    opened =
        (decrypt_lem vb (locked_at a w m)).0 (locked w) l₁
        ∙ ap
            (λ x.
              if x
              then if is_accessible (locked w)
                then ok (pos 0) (unlocked_at (pground_down vb) (locked w) (locked_at a w m))
                else fault
              else ok minus_one (locked_at a w m))
            (locked-Locked w).encrypted
        ∙ ap
            (λ x.
              if x
              then ok (pos 0) (unlocked_at (pground_down vb) (locked w) (locked_at a w m))
              else fault)
            (still w h e)
        ∙ ap (λ c. ok (pos 0) (unlocked_at c (locked w) (locked_at a w m))) q
