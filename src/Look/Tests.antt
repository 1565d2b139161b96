-- ===== src/Look/Tests.antt =====
-- `my-look` on a small file, and on a line that does not fit into its buffer.
use cs537_spring.Prelude.{
  false, ℕ, zero, suc, ◌≡◌, ◌≢◌, refl, arith, ap, sym, if◌then◌else◌, List, [], ◌∷◌, map, take,
  Option, none, some, Bool-cases, inl, inr,
}
use cs537_spring.Shell.Word.{same_word, same_word_refl, eq_of_same}
use cs537_spring.Utility.{Text, text, file, exited, aborted, options, each_line, c_string, printed}
use cs537_spring.Utility.Source.{last_file}
use cs537_spring.Utility.Tests.{c_library, read}
use cs537_spring.Utility.Lines.{lines, IsText, Fits}
use cs537_spring.Look.{Args, look, look_lines}
use cs537_spring.Look.Prefix.{lower, kept, ComparesFolded, look-kept}

-- A comparison as it is documented.
abbrev strncasecmp : Text → Text → ℕ → ℕ
strncasecmp a b n = if same_word (map lower (take n a)) (map lower (take n b)) then 0 else 1

strncasecmp-ComparesFolded : ComparesFolded strncasecmp
strncasecmp-ComparesFolded a b n = elim (Bool-cases (same_word x y)) [
  | inl e ↦ (λ _. eq_of_same x y e, λ _. rw e refl)
  | inr e ↦ (λ h. absurd (one e h), λ h. absurd (different e h))
]
  where
    x : Text
    x = map lower (take n a)

    y : Text
    y = map lower (take n b)

    one : same_word x y ≡ false → strncasecmp a b n ≢ 0
    one e h = ground (arith, e, h)

    different : same_word x y ≡ false → x ≢ y
    different e h = cc (e, sym (ap (same_word x) h), same_word_refl x)

-- "Abc\nxy\naB" and the prefix "ab".
abbrev small : Text
small = 65 ∷ 98 ∷ 99 ∷ 10 ∷ 120 ∷ 121 ∷ 10 ∷ 97 ∷ 66 ∷ []

abbrev ab : Text
ab = 97 ∷ 98 ∷ []

abbrev names : List Text
names = (120 ∷ []) ∷ (121 ∷ []) ∷ []

abbrev files : Text → Option Text
files name = if same_word name (121 ∷ []) then some small else none

-- my-look -f x -f y ab
abbrev args : Args
args = record { opts = map file names; argc = 6; optind = 5; argv = λ i. ab }

abbrev matches : List Text
matches = (65 ∷ 98 ∷ 99 ∷ 10 ∷ []) ∷ (97 ∷ 66 ∷ []) ∷ []

look_run : look c_library strncasecmp files [] args ≡ exited 0 (map (λ l. text l) matches)
unfolding look look_lines each_line options read c_string printed same_word
look_run = refl

small-IsText : IsText small
small-IsText = (
  omega arith,
  (
    omega arith,
    (
      omega arith,
      (omega arith, (omega arith, (omega arith, (omega arith, (omega arith, (omega arith, tt)))))),
    ),
  ),
)

small-Fits : Fits 127 (lines small)
unfolding lines
small-Fits = (omega arith, (omega arith, (omega arith, tt)))

look-kept_example : look c_library strncasecmp files [] args ≡ exited 0 (kept ab (lines small))
unfolding same_word last_file
look-kept_example =
    look-kept strncasecmp strncasecmp-ComparesFolded ab (omega arith) c_library files [] small args
      names refl (omega arith) refl refl refl small-IsText small-Fits

-- 127 times an x, and then "ab\n".
abbrev xs_then : ℕ → Text → Text
xs_then zero t = t
xs_then (suc n) t = 120 ∷ xs_then n t

-- The second piece of the line is printed, though the line starts with an x.
look_long :
    look_lines c_library strncasecmp files [] ab (xs_then 127 (97 ∷ 98 ∷ 10 ∷ []))
    ≡ exited 0 (text (97 ∷ 98 ∷ 10 ∷ []) ∷ [])
unfolding look_lines each_line read c_string printed same_word
look_long = refl

-- An empty prefix.
look_empty : look_lines c_library strncasecmp files [] [] small ≡ aborted []
unfolding look_lines each_line read
look_empty = refl
