-- ===== src/Shell/Word.antt =====
-- Words of a line of p3/mysh.c: strings without the terminating zero, `strcmp`, and `strtok`.
use cs537_spring.Prelude.{
  ℕ, Bool, true, false, List, [], ◌∷◌, ◌==◌, ◌&&◌, ◌||◌, if◌then◌else◌, ◌≡◌, refl, arith, ap, ◌∙◌,
}

abbrev pub Word : Type 0
Word = List ℕ

-- `strcmp(a, b) == 0`.
unfoldable pub same_word : Word → Word → Bool
same_word [] [] = true
same_word [] (y ∷ ys) = false
same_word (x ∷ xs) [] = false
same_word (x ∷ xs) (y ∷ ys) = (x == y) && same_word xs ys

pub same_word_refl : (a : Word) → same_word a a ≡ true
unfolding same_word
same_word_refl [] = refl
same_word_refl (x ∷ xs) = ground (arith, same_word_refl xs)

pub eq_of_same : (a b : Word) → same_word a b ≡ true → a ≡ b
unfolding same_word
eq_of_same [] [] h = refl
eq_of_same [] (y ∷ ys) h = cc
eq_of_same (x ∷ xs) [] h = cc
eq_of_same (x ∷ xs) (y ∷ ys) h =
    let e : x ≡ y = ground arith in
    let f : xs ≡ ys = eq_of_same xs ys (ground arith) in ap (λ z. z ∷ xs) e ∙ ap (λ zs. y ∷ zs) f

-- The delimiters " \t\n".
abbrev pub is_blank : ℕ → Bool
is_blank c = (c == 32) || (c == 9) || (c == 10)

-- A word that has begun is put in front of the others.
abbrev pub put_word : Word → List Word → List Word
put_word [] ws = ws
put_word (c ∷ w) ws = (c ∷ w) ∷ ws

-- The words that successive calls of `strtok` with one set of delimiters give: `split` ends the
-- word under way at a delimiter, and skips delimiters between words.
unfoldable pub split : (ℕ → Bool) → Word → Word × List Word
split delim [] = ([], [])
split delim (c ∷ line) =
    let (w, ws) = split delim line in if delim c then ([], put_word w ws) else (c ∷ w, ws)

unfoldable pub words : (ℕ → Bool) → Word → List Word
unfolding split
words delim line = let (w, ws) = split delim line in put_word w ws
