-- ===== src/Rev/Reverse.antt =====
-- `reverse_string` of p1/my-rev.c against the reversal of a list.
use cs537_spring.Prelude.{
  ℕ, zero, suc, ◌+◌, ◌-◌, ◌*◌, ◌≡◌, ◌≢◌, ◌≤◌, ◌<◌, arith, ltb, leb, ◌&&◌, update, if◌then◌else◌,
  refl, List, [], ◌∷◌, ◌++◌, ◌∙◌, ap, sym, Bool-cases, inl, inr, ltb→lt,
}
use mathlib.Core.List.{reverse, reverse-append}
use cs537_spring.Rev.{newline, swap_from, end_of, reverse_string}

-- A round, on the bytes of the outcome.
swap_round :
    (start end j r : ℕ) (str : ℕ → ℕ)
    → start + 1 < end
    → (let str₂ = update (update str start (str (end - 1))) (end - 1) (str start) in
        r ≡ (
          if leb (start + 1) j && ltb j (end - 1)
          then str₂ (start + 1 + (end - 1) - 1 - j)
          else str₂ j))
    → r ≡ (if leb start j && ltb j end then str (start + end - 1 - j) else str j)
swap_round start end j r str lt e = ground arith

swap_none :
    (start end j : ℕ) (str : ℕ → ℕ)
    → end ≤ start + 1
    → str j ≡ (if leb start j && ltb j end then str (start + end - 1 - j) else str j)
swap_none start end j str h = ground arith

-- The loop reverses the bytes from `start` up to `end`, and leaves the others.
swap_from_lem :
    (fuel start end j : ℕ) (str : ℕ → ℕ)
    → end ≤ start + 2 * fuel + 1
    → swap_from fuel start end str j
      ≡ (if leb start j && ltb j end then str (start + end - 1 - j) else str j)
unfolding swap_from
swap_from_lem zero start end j str h = swap_none start end j str (omega arith)
swap_from_lem (suc fuel) start end j str h = elim (Bool-cases (ltb (start + 1) end)) [
  | inl l ↦ rw l (
      swap_round start end j _ str (ltb→lt (start + 1) end l)
        (swap_from_lem fuel (start + 1) (end - 1) j _ (omega (arith, ltb→lt (start + 1) end l))))
  | inr l ↦ rw l (swap_none start end j str (ground arith))
]

-- The first `n` bytes of a buffer.
abbrev pub bytes : ℕ → (ℕ → ℕ) → List ℕ
bytes zero f = []
bytes (suc n) f = f 0 ∷ bytes n (λ j. f (suc j))

pub bytes-snoc : (n : ℕ) (f : ℕ → ℕ) → bytes (suc n) f ≡ bytes n f ++ (f n ∷ [])
bytes-snoc zero f = refl
bytes-snoc (suc n) f = ap (λ xs. f 0 ∷ xs) (bytes-snoc n (λ j. f (suc j)))

bytes-reverse :
    (n : ℕ) (f g : ℕ → ℕ)
    → ((j : ℕ) → j < n → g j ≡ f (n - 1 - j))
    → bytes n g ≡ reverse (bytes n f)
bytes-reverse zero f g h = refl
bytes-reverse (suc n) f g h =
    ap (λ b. b ∷ bytes n (λ j. g (suc j))) (h 0 (omega arith) ∙ ap f (omega arith))
    ∙ ap (λ xs. f n ∷ xs)
        (bytes-reverse n f (λ j. g (suc j)) λ j l. h (suc j) (omega arith) ∙ ap f (omega arith))
    ∙ sym (reverse-append (bytes n f) (f n ∷ []))
    ∙ ap reverse (sym (bytes-snoc n f))

-- `reverse_string` on a string that is not empty: the bytes before its last newline, or all of
-- them if its last byte is none, are reversed as a list, and every other byte of the buffer is as
-- before.
pub reverse_string_lem :
    (str : ℕ → ℕ) (len : ℕ)
    → 0 < len
    → (bytes (end_of str len) (reverse_string str len) ≡ reverse (bytes (end_of str len) str))
      × ((j : ℕ) → end_of str len ≤ j → reverse_string str len j ≡ str j)
unfolding reverse_string
reverse_string_lem str len h = (
  bytes-reverse e str (swap_from len 0 e str) (λ j l. loop j ∙ inside j l),
  λ j l. loop j ∙ outside j l,
)
  where
    e : ℕ
    e = end_of str len

    loop :
        (j : ℕ)
        → swap_from len 0 e str j ≡ (if leb 0 j && ltb j e then str (0 + e - 1 - j) else str j)
    loop j = swap_from_lem len 0 e j str (ground arith)

    inside :
        (j : ℕ)
        → j < e
        → (if leb 0 j && ltb j e then str (0 + e - 1 - j) else str j) ≡ str (e - 1 - j)
    inside j l = ground arith

    outside : (j : ℕ) → e ≤ j → (if leb 0 j && ltb j e then str (0 + e - 1 - j) else str j) ≡ str j
    outside j l = ground arith

reverse_string-byte :
    (str : ℕ → ℕ) (len j : ℕ)
    → 0 < len
    → reverse_string str len j
      ≡ (if ltb j (end_of str len) then str (end_of str len - 1 - j) else str j)
unfolding reverse_string
reverse_string-byte str len j h =
    swap_from_lem len 0 (end_of str len) j str (ground arith) ∙ same (end_of str len)
  where
    same :
        (e : ℕ)
        → (if leb 0 j && ltb j e then str (0 + e - 1 - j) else str j)
          ≡ (if ltb j e then str (e - 1 - j) else str j)
    same e = ground arith

-- A second reversal gives the string back, if a newline stands at its end only.
pub reverse_string-reverse_string :
    (str : ℕ → ℕ) (len j : ℕ)
    → 0 < len
    → ((i : ℕ) → i + 1 < len → str i ≢ newline)
    → reverse_string (reverse_string str len) len j ≡ str j
reverse_string-reverse_string str len j h n =
    reverse_string-byte r len j h
    ∙ ap (λ e. if ltb j e then r (e - 1 - j) else r j) same
    ∙ back (end_of str len) (reverse_string-byte str len (end_of str len - 1 - j) h)
        (reverse_string-byte str len j h)
  where
    r : ℕ → ℕ
    r = reverse_string str len

    same : end_of r len ≡ end_of str len
    same = ground (arith, reverse_string-byte str len (len - 1) h, n 0)

    twice :
        (e : ℕ)
        → j < e
        → (if ltb (e - 1 - j) e then str (e - 1 - (e - 1 - j)) else str (e - 1 - j)) ≡ str j
    twice e l = ground arith

    back :
        (e : ℕ)
        → r (e - 1 - j) ≡ (if ltb (e - 1 - j) e then str (e - 1 - (e - 1 - j)) else str (e - 1 - j))
        → r j ≡ (if ltb j e then str (e - 1 - j) else str j)
        → (if ltb j e then r (e - 1 - j) else r j) ≡ str j
    back e a b = elim (Bool-cases (ltb j e)) [
      | inl l ↦ rw l (a ∙ twice e (ltb→lt j e l))
      | inr l ↦ rw l (b ∙ rw l refl)
    ]
