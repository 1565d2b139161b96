-- ===== src/Shell/Redirect.antt =====
-- The redirection of a line in p3/mysh.c. The line is split at `>` by two calls of `strtok`, and
-- each part into words. Where a part is missing, the next `strtok` goes on at the end of the line
-- and gives no word.
use cs537_spring.Prelude.{
  ltb, subst, ◌&&◌, ℕ, suc, ◌+◌, ◌≡◌, refl, arith, ap, sym, Bool, true, false, not, Option, none,
  some, List, [], ◌∷◌, ◌++◌, All, length, ◌==◌, if◌then◌else◌,
}
use cs537_spring.Shell.Word.{Word, words, split, put_word, is_blank}

abbrev pub is_arrow : ℕ → Bool
is_arrow c = c == 62

-- The index that `strchr` finds, and the one that `strrchr` finds.
unfoldable pub first_at : ℕ → Word → Option ℕ
first_at i [] = none
first_at i (c ∷ line) = let rest = first_at (i + 1) line in if is_arrow c then some i else rest

abbrev pub or_here : Option ℕ → ℕ → ℕ → Option ℕ
or_here none c i = if is_arrow c then some i else none
or_here (some j) c i = some j

unfoldable pub last_at : ℕ → Word → Option ℕ
last_at i [] = none
last_at i (c ∷ line) = or_here (last_at (i + 1) line) c i

pub data Redirection : Type 0 where
  none_asked misformatted : Redirection
  to_file : Word → List Word → Redirection

-- The tests on the number of words after and before the arrow.
abbrev pub choose : List Word → List Word → Redirection
choose (o ∷ []) (a ∷ args) = to_file o (a ∷ args)
choose _ _ = misformatted

-- What the two calls `strtok(_, ">")` have given.
abbrev pub parts_of : List Word → Redirection
parts_of [] = misformatted
parts_of (before ∷ []) = misformatted
parts_of (before ∷ after ∷ _) = choose (words is_blank after) (words is_blank before)

abbrev pub same_at : Option ℕ → Option ℕ → Bool
same_at none none = true
same_at (some i) (some j) = i == j
same_at _ _ = false

abbrev pub redirect_from : Option ℕ → Option ℕ → Word → Redirection
redirect_from none backward line = none_asked
redirect_from (some i) backward line =
    if not (same_at (some i) backward) then misformatted else parts_of (words is_arrow line)

unfoldable pub redirect : Word → Redirection
redirect line = redirect_from (first_at 0 line) (last_at 0 line) line

-- A text without an arrow.
abbrev pub NoArrow : Word → Type 0
NoArrow line = All (λ c. is_arrow c ≡ false) line

first_at-arrow : (i : ℕ) (l r : Word) → NoArrow l → first_at i (l ++ 62 ∷ r) ≡ some (i + length l)
unfolding first_at
first_at-arrow i [] r h = ap some (omega arith)
first_at-arrow i (c ∷ l) r h = rw (h.0, first_at-arrow (i + 1) l r h.1) (ap some (omega arith))

first_at-none : (i : ℕ) (l : Word) → NoArrow l → first_at i l ≡ none
unfolding first_at
first_at-none i [] h = refl
first_at-none i (c ∷ l) h = rw h.0 (first_at-none (i + 1) l h.1)

last_at-none : (i : ℕ) (l : Word) → NoArrow l → last_at i l ≡ none
unfolding last_at
last_at-none i [] h = refl
last_at-none i (c ∷ l) h = rw (last_at-none (i + 1) l h.1, h.0) refl

last_at-arrow : (i : ℕ) (l r : Word) → NoArrow r → last_at i (l ++ 62 ∷ r) ≡ some (i + length l)
unfolding last_at
last_at-arrow i [] r h = rw (last_at-none (i + 1) r h) (ap some (omega arith))
last_at-arrow i (c ∷ l) r h = rw (last_at-arrow (i + 1) l r h) (ap some (omega arith))

split-none : (l : Word) → NoArrow l → split is_arrow l ≡ (l, [])
unfolding split
split-none [] h = refl
split-none (c ∷ l) h = rw (h.0, split-none l h.1) refl

split-arrow :
    (l r : Word) → NoArrow l → NoArrow r → split is_arrow (l ++ 62 ∷ r) ≡ (l, put_word r [])
unfolding split
split-arrow [] r h k = rw (split-none r k) refl
split-arrow (c ∷ l) r h k = rw (h.0, split-arrow l r h.1 k) refl

words_nil : words is_blank [] ≡ []
unfolding words split
words_nil = refl

choose_nil : (ws : List Word) → choose ws [] ≡ misformatted
choose_nil [] = refl
choose_nil (w ∷ []) = refl
choose_nil (w ∷ v ∷ ws) = refl

parts :
    (l r : Word)
    → parts_of (put_word l (put_word r [])) ≡ choose (words is_blank r) (words is_blank l)
parts [] [] = rw words_nil refl
parts [] (d ∷ r) = rw words_nil (sym (choose_nil (words is_blank (d ∷ r))))
parts (c ∷ l) [] = rw words_nil refl
parts (c ∷ l) (d ∷ r) = refl

words-arrow :
    (l r : Word) → NoArrow l → NoArrow r → words is_arrow (l ++ 62 ∷ r) ≡ put_word l (put_word r [])
unfolding words
words-arrow l r h k = rw (split-arrow l r h k) refl

last_at-two :
    (i : ℕ) (l m r : Word)
    → NoArrow r
    → last_at i (l ++ 62 ∷ (m ++ 62 ∷ r)) ≡ some (i + length l + suc (length m))
unfolding last_at
last_at-two i [] m r h = rw (last_at-arrow (i + 1) m r h) (ap some (omega arith))
last_at-two i (c ∷ l) m r h = rw (last_at-two (i + 1) l m r h) (ap some (omega arith))

same_index : (n : ℕ) → (n == n) ≡ true
same_index n = ground arith

other_index : (n m : ℕ) → (0 + n == 0 + n + suc m) ≡ false
other_index n m = ground arith

redirect-one :
    (l r : Word)
    → NoArrow l
    → NoArrow r
    → redirect (l ++ 62 ∷ r) ≡ choose (words is_blank r) (words is_blank l)
unfolding redirect
redirect-one l r h k =
    rw
      (
        first_at-arrow 0 l r h,
        last_at-arrow 0 l r k,
        same_index (0 + length l),
        words-arrow l r h k,
      )
      (parts l r)

-- A line with one arrow by the numbers of words after and before it.
abbrev pub ByCounts : List Word → List Word → Redirection → Type 0
ByCounts after before r =
    if (length after == 1) && ltb 0 (length before)
    then ((o : Word) × (after ≡ o ∷ []) × (r ≡ to_file o before))
    else r ≡ misformatted

choose-ByCounts : (after before : List Word) → ByCounts after before (choose after before)
choose-ByCounts [] before = refl
choose-ByCounts (o ∷ []) [] = refl
choose-ByCounts (o ∷ []) (a ∷ args) =
    let fits : ltb 0 (length (a ∷ args)) ≡ true = ground arith in rw fits (o, refl, refl)
choose-ByCounts (o ∷ p ∷ after) before =
    let many : (length (o ∷ p ∷ after) == 1) ≡ false = ground arith in rw many refl

-- A line without `>` asks for no redirection. A line with one `>` is redirected if there is exactly
-- one word after it and a word before it: to the word after it, and with all the words before it
-- as the arguments. It is misformatted otherwise. A line with a second `>` is misformatted.
pub redirect_lem :
    (l m r : Word)
    → NoArrow l
    → NoArrow r
    → (redirect l ≡ none_asked)
      × ByCounts (words is_blank r) (words is_blank l) (redirect (l ++ 62 ∷ r))
      × (redirect (l ++ 62 ∷ (m ++ 62 ∷ r)) ≡ misformatted)
unfolding redirect
redirect_lem l m r h k = (
  rw (first_at-none 0 l h) refl,
  subst (ByCounts (words is_blank r) (words is_blank l)) (sym (redirect-one l r h k))
      (choose-ByCounts (words is_blank r) (words is_blank l)),
  rw (first_at-arrow 0 l (m ++ 62 ∷ r) h, last_at-two 0 l m r k, other_index (length l) (length m))
      refl,
)
