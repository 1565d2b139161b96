-- ===== src/Rev/Tests.antt =====
-- The reversal of a short line, and the theorems at it.
use cs537_spring.Prelude.{some, List, none, map, ℕ, ◌≡◌, refl, arith, [], ◌∷◌, ◌==◌, if◌then◌else◌}
use cs537_spring.Utility.{Text, text, file, exited, aborted, options, each_line, c_string, printed}
use cs537_spring.Utility.Source.{last_file}
use cs537_spring.Utility.Tests.{c_library, read}
use cs537_spring.Utility.Lines.{lines, IsText, Fits}
use cs537_spring.Rev.Main.{Args, rev, rev_lines}
use cs537_spring.Rev.Twice.{flat, strings, rev_lines-rev_lines}
use cs537_spring.Rev.Program.{all_reversed, rev-reversed}
use cs537_spring.Rev.{newline, swap_from, reverse_string}
use cs537_spring.Rev.Reverse.{bytes}

-- The line "abc" with its newline.
abbrev line : ℕ → ℕ
line i =
    if i == 0
    then 97
    else if i == 1
    then 98
    else if i == 2
    then 99
    else if i == 3
    then newline
    else 0

reverse_string_run : bytes 4 (reverse_string line 4) ≡ 99 ∷ 98 ∷ 97 ∷ newline ∷ []
unfolding reverse_string swap_from
reverse_string_run = refl

-- "ab\n\ncd" as the file x.
abbrev small : Text
small = 97 ∷ 98 ∷ 10 ∷ 10 ∷ 99 ∷ 100 ∷ []

abbrev names : List Text
names = (120 ∷ []) ∷ []

abbrev args : Args
args = record { opts = map file names; argc = 3; optind = 3 }

rev_run :
    rev c_library (λ f. some small) [] args
    ≡ exited 0 (text (98 ∷ 97 ∷ 10 ∷ []) ∷ text (10 ∷ []) ∷ text (100 ∷ 99 ∷ []) ∷ [])
unfolding rev rev_lines each_line options read c_string printed reverse_string swap_from
rev_run = refl

small-IsText : IsText small
small-IsText =
    (omega arith, (omega arith, (omega arith, (omega arith, (omega arith, (omega arith, tt))))))

small-Fits : Fits 99 (lines small)
unfolding lines
small-Fits = (omega arith, (omega arith, (omega arith, tt)))

rev-reversed_example :
    rev c_library (λ f. some small) [] args ≡ exited 0 (all_reversed (lines small))
unfolding last_file
rev-reversed_example =
    rev-reversed c_library (λ f. some small) [] small args names refl (omega arith) refl refl
      small-IsText small-Fits

rev_lines-rev_lines_example :
    (first : List Text) × (second : List Text) × (rev_lines c_library (λ f. some small) [] small
      ≡ exited 0 (strings first))
    × (rev_lines c_library (λ f. some small) [] (flat first) ≡ exited 0 (strings second))
    × (flat second ≡ small)
rev_lines-rev_lines_example =
    rev_lines-rev_lines c_library (λ f. some small) [] small small-IsText small-Fits

-- A line that starts with a zero byte ends the program by its assertion.
rev_zero : rev_lines c_library (λ f. none) [] (0 ∷ 97 ∷ 10 ∷ []) ≡ aborted []
unfolding rev_lines each_line read c_string
rev_zero = refl
