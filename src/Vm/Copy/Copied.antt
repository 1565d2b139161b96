-- ===== src/Vm/Copy/Copied.antt =====
-- What `copyout` does to the memory, for a buffer that is not in the pages it is copied to.
use cs537_spring.Prelude.{
  ℕ, zero, suc, ◌+◌, ◌-◌, ◌%◌, ◌^◌, ◌≡◌, ◌≢◌, ◌≤◌, ◌<◌, ◌⊎◌, inl, inr, refl, arith, ap, sym, subst,
  ◌∙◌, true, false, Bool-cases, ◌&&◌, leb, ltb, ◌==◌, Option, none, some, ℤ, pos, minus_one, update,
}
use cs537_spring.Vm.Word.{pgsize, pground_down}
use cs537_spring.Vm.Machine.{Machine, ok, Command, Returns}
use cs537_spring.Vm.Crypt.{add_addr}
use cs537_spring.Vm.Copy.{moved, piece, copy_at, copy_from}
use cs537_spring.Vm.Copy.Moved.{moved_inside, moved_outside, down_same}

-- The bytes of the addresses from `va` up to `end` have been written, each to its page.
pub record Copied (page : ℕ → Option ℕ) (bytes : ℕ → ℕ) (va end : ℕ) (m m' : Machine) : Type 0 where
  pub written :
      (x f : ℕ)
      → va ≤ x
      → x < end
      → page (pground_down x) ≡ some f
      → m'.mem f (x % 4096) ≡ bytes (x - va)
  pub found : (x : ℕ) → va ≤ x → x < end → page (pground_down x) ≢ none
  pub others :
      (f j : ℕ)
      → ((x : ℕ) → va ≤ x → x < end → page (pground_down x) ≡ some f → x % 4096 ≢ j)
      → m'.mem f j ≡ m.mem f j
  pub dir : m'.dir ≡ m.dir
  pub sz : m'.sz ≡ m.sz

-- What the loop may end in: the whole buffer is copied, or a page is not found at `end`.
abbrev pub CopyEnd : (ℕ → Option ℕ) → (ℕ → ℕ) → ℕ → ℕ → Machine → ℤ → Machine → Type 0
CopyEnd page bytes va total m r m' =
    ((r ≡ pos 0) × Copied page bytes va (va + total) m m')
    ⊎ ((r ≡ minus_one)
        × (end : ℕ) × (va ≤ end)
        × (end < va + total)
        × (page (pground_down end) ≡ none)
        × Copied page bytes va end m m')

module _ (find : ℕ → Command (Option ℕ)) (page : ℕ → Option ℕ) (bytes : ℕ → ℕ) (m : Machine)
    (va total : ℕ) (small : va + total < 2 ^ 32)
    (finds : (a : ℕ) (m' : Machine)
      → m'.dir ≡ m.dir
      → pground_down a ≡ a
      → pground_down va ≤ a
      → a < va + total
      → find a m' ≡ ok (page a) m')
    (distinct : (a b f : ℕ)
      → pground_down a ≡ a
      → pground_down b ≡ b
      → pground_down va ≤ a
      → a < va + total
      → pground_down va ≤ b
      → b < va + total
      → page a ≡ some f
      → page b ≡ some f
      → a ≡ b) where
  Copied-none : Copied page bytes va va m m
  Copied-none = record {
    written = λ x f lo hi e. absurd (omega arith);
    found = λ x lo hi. absurd (omega arith);
    others = λ f j h. refl;
    dir = refl;
    sz = refl;
  }

  -- The state after a piece of `n` bytes at the address `c`.
  abbrev stored : ℕ → ℕ → ℕ → Machine → Machine
  stored c n f m₁ = record m₁ {
    mem = update m₁.mem f (moved bytes (c - va) (c - pground_down c) n (m₁.mem f));
  }

  Copied-piece :
      (c n f : ℕ) (m₁ : Machine)
      → va ≤ c
      → c + n ≤ va + total
      → 0 < n
      → c + n ≤ pground_down c + 4096
      → page (pground_down c) ≡ some f
      → Copied page bytes va c m m₁
      → Copied page bytes va (c + n) m (stored c n f m₁)
  Copied-piece c n f m₁ lo hi positive inside e h = record {
    written = λ x f' a b e'. elim (Bool-cases (ltb x c)) [
      | inl t ↦
          let before : x < c = ground arith in
          moved_outside m₁.mem bytes f (c - va) (c - pground_down c) n f' (x % 4096)
            (λ q. apart x f' a before e' q)
          ∙ h.written x f' a before e'
      | inr t ↦
          let down : pground_down x ≡ pground_down c = down_same c x (ground arith) (omega arith) in
          let eq : some f ≡ some f' = sym e ∙ ap page (sym down) ∙ e' in
          subst (λ k. stored_mem k (x % 4096) ≡ bytes (x - va)) (some_eq f f' eq)
            (moved_inside m₁.mem bytes f (c - va) (c - pground_down c) n (x % 4096) (ground arith)
                (omega arith)
              ∙ ap bytes (at x (ground arith) (omega arith)))
    ];
    found = λ x a b. elim (Bool-cases (ltb x c)) [
      | inl t ↦ h.found x a (ground arith)
      | inr t ↦
          let down : pground_down x ≡ pground_down c = down_same c x (ground arith) (omega arith) in
          λ none_at. some_none f (sym e ∙ ap page (sym down) ∙ none_at)
    ];
    others = λ f' j free.
        moved_outside m₁.mem bytes f (c - va) (c - pground_down c) n f' j (λ q.
          elim (Bool-cases (leb (c - pground_down c) j && ltb j (c - pground_down c + n))) [
            | inr o ↦ o
            | inl i ↦
                let x = pground_down c + j in
                let down : pground_down x ≡ pground_down c =
                  down_same c x (ground arith) (ground arith) in
                absurd (
                  free x (ground arith) (ground arith) (ap page down ∙ e ∙ ap some q)
                    (ground arith))
          ])
        ∙ h.others f' j (λ x a b. free x a (omega arith));
    dir = h.dir;
    sz = h.sz;
  }
    where
      stored_mem : ℕ → ℕ → ℕ
      stored_mem = (stored c n f m₁).mem

      some_eq : (a b : ℕ) → some a ≡ some b → a ≡ b
      some_eq a b q = ground arith

      some_none : (a : ℕ) → some a ≡ none → ⊥
      some_none a q = cc

      at :
          (x : ℕ)
          → c ≤ x
          → x < pground_down c + 4096
          → c - va + (x % 4096 - (c - pground_down c)) ≡ x - va
      at x a b = omega arith

      apart :
          (x f' : ℕ)
          → va ≤ x
          → x < c
          → page (pground_down x) ≡ some f'
          → f ≡ f'
          → (leb (c - pground_down c) (x % 4096) && ltb (x % 4096) (c - pground_down c + n)) ≡ false
      apart x f' a b e' q =
          let down : pground_down x ≡ pground_down c =
            distinct (pground_down x) (pground_down c) f' (omega arith) (omega arith) (omega arith)
              (omega arith) (omega arith) (omega arith) e' (e ∙ ap some q) in
          ground arith

  copy_from-CopyEnd :
      (fuel b c len : ℕ) (m₁ : Machine)
      → b + len ≡ total
      → (0 < len → c ≡ va + b)
      → len ≤ fuel
      → Copied page bytes va (va + b) m m₁
      → Returns (CopyEnd page bytes va total m) (copy_from find (λ _. bytes) fuel b c len m₁)
  unfolding copy_from
  copy_from-CopyEnd zero b c len m₁ sum at enough h =
      let done : (len == 0) ≡ true = ground arith in
      let all : b ≡ total = omega arith in
      rw done (inl (refl, subst (λ t. Copied page bytes va (va + t) m m₁) all h))
  copy_from-CopyEnd (suc fuel) b c len m₁ sum at enough h = elim (Bool-cases (len == 0)) [
    | inl done ↦
        let all : b ≡ total = ground arith in
        rw done (inl (refl, subst (λ t. Copied page bytes va (va + t) m m₁) all h))
    | inr more ↦
        let positive : 0 < len = ground arith in
        let here : c ≡ va + b = at positive in
        let look : find (pground_down c) m₁ ≡ ok (page (pground_down c)) m₁ =
          finds (pground_down c) m₁ h.dir (omega arith) (omega arith) (omega arith) in
        rw (more, look)
          (round fuel b c len m₁ sum here positive enough h (page (pground_down c)) refl
            (copy_from-CopyEnd fuel))
  ]
    where
      round :
          (fuel b c len : ℕ) (m₁ : Machine)
          → b + len ≡ total
          → c ≡ va + b
          → 0 < len
          → len ≤ suc fuel
          → Copied page bytes va (va + b) m m₁
          → (o : Option ℕ) → page (pground_down c) ≡ o
          → ((b c len : ℕ) (m₁ : Machine)
              → b + len ≡ total
              → (0 < len → c ≡ va + b)
              → len ≤ fuel
              → Copied page bytes va (va + b) m m₁
              → Returns
                  (CopyEnd page bytes va total m)
                  (copy_from find (λ _. bytes) fuel b c len m₁))
          → Returns (CopyEnd page bytes va total m) (
              copy_at find
                (λ _. bytes)
                (copy_from find
                  (λ _. bytes)
                  fuel
                  (b + piece c len)
                  (add_addr (pground_down c) pgsize)
                  (len - piece c len))
                b
                c
                len
                o
                m₁)
      round fuel b c len m₁ sum here positive enough h none e ih = inr (
        refl,
        va + b,
        omega arith,
        omega arith,
        subst (λ x. page (pground_down x) ≡ none) here e,
        h,
      )
      round fuel b c len m₁ sum here positive enough h (some f) e ih =
          let index : c - va ≡ b = omega arith in
          let step =
            Copied-piece c (piece c len) f m₁ (omega arith) (omega arith) (omega arith)
              (omega arith) e (subst (λ x. Copied page bytes va x m m₁) (sym here) h) in
          ih (b + piece c len) (add_addr (pground_down c) pgsize) (len - piece c len) _
            (omega arith) (λ more. omega arith) (omega arith)
            (subst
              (λ x. Copied page bytes va x m (record m₁ {
                mem = update m₁.mem f (moved bytes b (c - pground_down c) (piece c len) (m₁.mem f));
              }))
              {x = c + piece c len} {y = va + (b + piece c len)} (omega arith)
              (subst
                (λ k. Copied page bytes va (c + piece c len) m (record m₁ {
                  mem =
                      update m₁.mem f (moved bytes k (c - pground_down c) (piece c len) (m₁.mem f));
                }))
                index step))

  -- If the range of `total` bytes from `va` on does not wrap around, the function that finds pages
  -- answers by the page directory alone, two pages of the range have no frame in common, and the
  -- bytes of the buffer do not depend on the memory, the loop of `copyout` ends. Either the result
  -- is 0: then each byte of the buffer is in the frame of its address. Or it is -1: then some page
  -- of the range was not found, and this holds for the bytes before it. No other byte, no entry and
  -- no size has changed.
  pub copy_from-Copied :
      Returns (CopyEnd page bytes va total m) (copy_from find (λ _. bytes) total 0 va total m)
  copy_from-Copied =
      copy_from-CopyEnd total 0 va total m (omega arith) (λ h. omega arith) (omega arith)
        (subst (λ x. Copied page bytes va x m m) {x = va} {y = va + 0} (omega arith) Copied-none)
