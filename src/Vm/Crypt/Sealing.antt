-- ===== src/Vm/Crypt/Sealing.antt =====
-- What the second loop of `mencrypt`, of p6/vm.c or p5/src/vm.c, does to the page table and to the
-- memory, by an entry-wise and byte-wise description.
use cs537_spring.Prelude.{
  ℕ, zero, suc, ◌-◌, ◌≡◌, ◌<◌, refl, sym, ap, ◌∙◌, arith, Bool, true, false, not, ◌&&◌, ◌||◌, ltb,
  ◌==◌, if◌then◌else◌, Option, none, some, Bool-cases, inl, inr,
}
use cs537_spring.Vm.Word.{has, pte_e, pte_page, pgsize}
use cs537_spring.Vm.Machine.{Machine, load_pte, same_entry, load-same_entry}
use cs537_spring.Vm.Crypt.{add_addr}

-- Is the entry of the address `b` that of one of the `n` pages from `a` on?
abbrev pub in_range : ℕ → ℕ → ℕ → Bool
in_range zero a b = false
in_range (suc n) a b = same_entry a b || in_range n (add_addr a pgsize) b

-- An entry that is encrypted stays, and any other is changed by `lock`.
abbrev pub after_lock : (ℕ → ℕ) → Option ℕ → Option ℕ
after_lock lock none = none
after_lock lock (some w) = if has pte_e w then some w else some (lock w)

-- An entry of the physical page `f` that is not encrypted.
abbrev pub is_plain_of : ℕ → Option ℕ → Bool
is_plain_of f none = false
is_plain_of f (some w) = not (has pte_e w) && (pte_page w == f)

-- Is the number of entries of the range that are of the page `f` and not encrypted odd? An entry
-- that the range comes to more than once is counted once.
abbrev pub odd_plain : ℕ → ℕ → (ℕ → Option ℕ) → ℕ → Bool
odd_plain zero a entry f = false
odd_plain (suc n) a entry f =
    let rest = odd_plain n (add_addr a pgsize) entry f in
    if is_plain_of f (entry a) && not (in_range n (add_addr a pgsize) a) then not rest else rest

-- All bytes of the pages for which the test holds are replaced by their complements.
abbrev pub flipped : Bool → ℕ → ℕ → ℕ
flipped odd j x = if odd && ltb j 4096 then 255 - x else x

-- The entries of the range are locked, and no other entry is changed. The bytes of a physical page
-- are flipped if an odd number of the entries are of that page, and no other memory is changed.
pub record Sealing (lock : ℕ → ℕ) (n a : ℕ) (m m' : Machine) : Type 0 where
  pub entries :
      (b : ℕ)
      → load_pte b m' ≡ (if in_range n a b then after_lock lock (load_pte b m) else load_pte b m)
  pub bytes :
      (f j : ℕ)
      → m.mem f j < 256
      → m'.mem f j ≡ flipped (odd_plain n a (λ b. load_pte b m) f) j (m.mem f j)
  pub sz : m'.sz ≡ m.sz
  pub clockqueue : m'.clockqueue ≡ m.clockqueue
  pub clockhand : m'.clockhand ≡ m.clockhand

-- The same for one page.
pub record One (lock : ℕ → ℕ) (a : ℕ) (m m' : Machine) : Type 0 where
  pub entries :
      (b : ℕ)
      → load_pte b m' ≡ (if same_entry a b then after_lock lock (load_pte b m) else load_pte b m)
  pub bytes : (f j : ℕ) → m'.mem f j ≡ flipped (is_plain_of f (load_pte a m)) j (m.mem f j)
  pub sz : m'.sz ≡ m.sz
  pub clockqueue : m'.clockqueue ≡ m.clockqueue
  pub clockhand : m'.clockhand ≡ m.clockhand

One-loaded :
    (lock : ℕ → ℕ) (a : ℕ) (m m₁ : Machine)
    → One lock a m m₁
    → (here : Bool) (b : ℕ) → same_entry a b ≡ here
    → load_pte b m₁ ≡ (if here then after_lock lock (load_pte b m) else load_pte b m)
One-loaded lock a m m₁ s here b e =
    s.entries b ∙ ap (λ t. if t then after_lock lock (load_pte b m) else load_pte b m) e

-- An encrypted page is passed over.
pub One-same :
    (lock : ℕ → ℕ) (a w : ℕ) (m : Machine)
    → load_pte a m ≡ some w
    → has pte_e w ≡ true
    → One lock a m m
One-same lock a w m l e = record {
  entries = λ b. entry (same_entry a b) b refl;
  bytes = λ f j. ap (λ o. flipped o j (m.mem f j)) (sym (ap (is_plain_of f) l ∙ skipped f));
  sz = refl;
  clockqueue = refl;
  clockhand = refl;
}
  where
    skipped : (f : ℕ) → is_plain_of f (some w) ≡ false
    skipped f = ap (λ t. not t && (pte_page w == f)) e

    entry :
        (here : Bool) (b : ℕ)
        → same_entry a b ≡ here
        → load_pte b m ≡ (if here then after_lock lock (load_pte b m) else load_pte b m)
    entry false b s = refl
    entry true b s =
        load-same_entry a b m s
        ∙ l
        ∙ ap (λ t. if t then some w else some (lock w)) (sym e)
        ∙ ap (after_lock lock) (sym (load-same_entry a b m s ∙ l))

pub Sealing-none : (lock : ℕ → ℕ) (a : ℕ) (m : Machine) → Sealing lock 0 a m m
Sealing-none lock a m = record {
  entries = λ b. refl;
  bytes = λ f j l. refl;
  sz = refl;
  clockqueue = refl;
  clockhand = refl;
}

in_range-same : (n x a b : ℕ) → same_entry a b ≡ true → in_range n x a ≡ in_range n x b
in_range-same zero x a b e = refl
in_range-same (suc n) x a b e = ground (arith, in_range-same n (add_addr x pgsize) a b e)

module _ (lock : ℕ → ℕ) (locks : (w : ℕ) → has pte_e (lock w) ≡ true) where
  lock_twice : (o : Option ℕ) → after_lock lock (after_lock lock o) ≡ after_lock lock o
  lock_twice none = refl
  lock_twice (some w) = elim (Bool-cases (has pte_e w)) [
    | inl e ↦ rw e (rw e refl)
    | inr e ↦ rw e (rw (locks w) refl)
  ]

  not_plain : (f : ℕ) (o : Option ℕ) → is_plain_of f (after_lock lock o) ≡ false
  not_plain f none = refl
  not_plain f (some w) = elim (Bool-cases (has pte_e w)) [
    | inl e ↦ rw e (rw e refl)
    | inr e ↦ rw e (rw (locks w) refl)
  ]

  odd_plain-One :
      (n c a f : ℕ) (m m₁ : Machine)
      → One lock a m m₁
      → odd_plain n c (λ b. load_pte b m₁) f ≡ (
          if in_range n c a && is_plain_of f (load_pte a m)
          then not (odd_plain n c (λ b. load_pte b m) f)
          else odd_plain n c (λ b. load_pte b m) f)
  odd_plain-One zero c a f m m₁ s = refl
  odd_plain-One (suc n) c a f m m₁ s = elim (Bool-cases (same_entry a c)) [
    | inl e ↦
        let ih = odd_plain-One n (add_addr c pgsize) a f m m₁ s in
        let now : is_plain_of f (load_pte c m₁) ≡ false =
          ap (is_plain_of f) (One-loaded lock a m m₁ s true c e) ∙ not_plain f (load_pte c m) in
        let before : is_plain_of f (load_pte a m) ≡ is_plain_of f (load_pte c m) =
          ap (is_plain_of f) (sym (load-same_entry a c m e)) in
        ground
          (arith, ih, now, before, e, in_range-same n (add_addr c pgsize) a c e, same_sym a c e)
    | inr e ↦
        let ih = odd_plain-One n (add_addr c pgsize) a f m m₁ s in
        let now : is_plain_of f (load_pte c m₁) ≡ is_plain_of f (load_pte c m) =
          ap (is_plain_of f) (One-loaded lock a m m₁ s false c e) in
        ground (arith, ih, now, e, other_sym a c e)
  ]
    where
      same_sym : (a c : ℕ) → same_entry a c ≡ true → same_entry c a ≡ true
      same_sym a c e = ground arith

      other_sym : (a c : ℕ) → same_entry a c ≡ false → same_entry c a ≡ false
      other_sym a c e = ground arith

  -- One page, and then the pages after it.
  pub Sealing-suc :
      (n a : ℕ) (m m₁ m' : Machine)
      → One lock a m m₁
      → Sealing lock n (add_addr a pgsize) m₁ m'
      → Sealing lock (suc n) a m m'
  Sealing-suc n a m m₁ m' s r = record {
    entries = λ b. r.entries b ∙ entry (same_entry a b) (in_range n (add_addr a pgsize) b) b refl;
    bytes = λ f j l.
        let p = is_plain_of f (load_pte a m) in
        r.bytes f j (ground (arith, s.bytes f j))
        ∙ ap (λ o. flipped o j (m₁.mem f j)) (odd_plain-One n (add_addr a pgsize) a f m m₁ s)
        ∙ ap
            (flipped
              (if in_range n (add_addr a pgsize) a && p
                then not (odd_plain n (add_addr a pgsize) (λ b. load_pte b m) f)
                else odd_plain n (add_addr a pgsize) (λ b. load_pte b m) f)
              j)
            (s.bytes f j)
        ∙ twice p (in_range n (add_addr a pgsize) a)
            (odd_plain n (add_addr a pgsize) (λ b. load_pte b m) f) j (m.mem f j) l;
    sz = r.sz ∙ s.sz;
    clockqueue = r.clockqueue ∙ s.clockqueue;
    clockhand = r.clockhand ∙ s.clockhand;
  }
    where
      twice :
          (p i o : Bool) (j x : ℕ)
          → x < 256
          → flipped (if i && p then not o else o) j (flipped p j x)
            ≡ flipped (if p && not i then not o else o) j x
      twice p i o j x l = ground arith

      entry :
          (here later : Bool) (b : ℕ)
          → same_entry a b ≡ here
          → (if later then after_lock lock (load_pte b m₁) else load_pte b m₁)
            ≡ (if here || later then after_lock lock (load_pte b m) else load_pte b m)
      entry true true b e =
          ap (after_lock lock) (One-loaded lock a m m₁ s true b e) ∙ lock_twice (load_pte b m)
      entry true false b e = One-loaded lock a m m₁ s true b e
      entry false true b e = ap (after_lock lock) (One-loaded lock a m m₁ s false b e)
      entry false false b e = One-loaded lock a m m₁ s false b e
