-- ===== src/Rev/Program.antt =====
-- The whole of p1/my-rev.c prints every line reversed.
use mathlib.Core.List.{reverse, reverse_aux}
use cs537_spring.Prelude.{
  suc, ◌<◌, ◌≡◌, refl, arith, ltb, ◌==◌, ==_iff, Bool-cases, inl, inr, if◌then◌else◌, List, [], ◌∷◌,
  ◌++◌, map, Option, none, some, length, All, ap, ◌∙◌, lt→ltb,
}
use cs537_spring.Utility.{
  Text, Item, text, file, Outcome, exited, aborted, printed, options, open_source, run_source,
  c_string, Stdio, newline, invalid,
}
use cs537_spring.Utility.Lines.{
  lines, IsText, Fits, GoodLine, lines-GoodLine, over_lines, each_line-lines,
}
use cs537_spring.Rev.{reverse_string}
use cs537_spring.Rev.Reverse.{bytes}
use cs537_spring.Rev.Main.{buffer, Args, rev_line, rev_lines, rev_parsed, rev}
use cs537_spring.Utility.Source.{last_file, options-file, c_string-text, not_below}
use cs537_spring.Rev.Lines.{body, ending, reversed_line, reverse_string-line}

pub IsText-append : (a b : Text) → IsText a → IsText b → IsText (a ++ b)
IsText-append [] b h k = k
IsText-append (c ∷ a) b h k = (h.0, IsText-append a b h.1 k)

IsText-reverse_aux : (a b : Text) → IsText a → IsText b → IsText (reverse_aux a b)
IsText-reverse_aux [] b h k = k
IsText-reverse_aux (c ∷ a) b h k = IsText-reverse_aux a (c ∷ b) h.1 (h.0, k)

IsText-body : (l : Text) → IsText l → IsText (body l)
unfolding body
IsText-body [] h = tt
IsText-body (c ∷ l) h = elim (Bool-cases (c == newline)) [
  | inl e ↦ rw e tt
  | inr e ↦ rw e (h.0, IsText-body l h.1)
]

IsText-ending : (l : Text) → IsText l → IsText (ending l)
unfolding ending
IsText-ending [] h = tt
IsText-ending (c ∷ l) h = elim (Bool-cases (c == newline)) [
  | inl e ↦ rw e h
  | inr e ↦ rw e (IsText-ending l h.1)
]

pub IsText-reversed_line : (l : Text) → IsText l → IsText (reversed_line l)
unfolding reversed_line
IsText-reversed_line l h =
    IsText-append (reverse (body l)) (ending l)
      (IsText-reverse_aux (body l) [] (IsText-body l h) tt) (IsText-ending l h)

-- A round on a good line.
rev_line-GoodLine :
    (l : Text) (rest : Outcome) → GoodLine l → rev_line l rest ≡ printed (reversed_line l) rest
rev_line-GoodLine l rest (p, t, k) =
    ap
      (λ s.
        if ltb 0 (length s)
        then printed (c_string (bytes (length s) (reverse_string (buffer s) (length s)))) rest
        else aborted [])
      (c_string-text l t)
    ∙ ap
        (λ b.
          if b
          then printed (c_string (bytes (length l) (reverse_string (buffer l) (length l)))) rest
          else aborted [])
        (lt→ltb 0 (length l) p)
    ∙ ap (λ s. printed (c_string s) rest) (reverse_string-line l p k)
    ∙ ap (λ s. printed s rest) (c_string-text (reversed_line l) (IsText-reversed_line l t))

-- Every line reversed, as it is printed.
abbrev pub all_reversed : List Text → List Item
all_reversed = map (λ l. text (reversed_line l))

over_lines-reversed :
    (ls : List Text) → All GoodLine ls → over_lines rev_line ls ≡ exited 0 (all_reversed ls)
unfolding over_lines printed
over_lines-reversed [] g = refl
over_lines-reversed (l ∷ ls) (g, gs) =
    rev_line-GoodLine l (over_lines rev_line ls) g
    ∙ ap (printed (reversed_line l)) (over_lines-reversed ls gs)

pub rev_lines-reversed :
    (lib : Stdio) (files : Text → Option Text) (stdin s : Text)
    → IsText s
    → Fits 99 (lines s)
    → rev_lines lib files stdin s ≡ exited 0 (all_reversed (lines s))
unfolding rev_lines
rev_lines-reversed lib files stdin s t f =
    each_line-lines lib 99 rev_line (suc (length s)) s (omega arith) (omega arith) f
    ∙ over_lines-reversed (lines s) (lines-GoodLine s t)

-- `my-rev` with options -f only and no operand reads the file that the last -f names, or the
-- standard input. If that is a text without zero bytes and with lines of at most 99 bytes, then it
-- prints every line reversed with its newline at the end, in the order of the lines, and returns 0.
pub rev-reversed :
    (lib : Stdio) (files : Text → Option Text) (stdin s : Text) (a : Args) (names : List Text)
    → a.opts ≡ map file names
    → 0 < a.argc
    → a.optind ≡ a.argc
    → open_source files stdin (last_file names none) ≡ some s
    → IsText s
    → Fits 99 (lines s)
    → rev lib files stdin a ≡ exited 0 (all_reversed (lines s))
unfolding rev
rev-reversed lib files stdin s a names opts argc operand opened t f =
    ap
      (λ b.
        if b then exited 1 (invalid ∷ []) else rev_parsed lib files stdin a (options a.opts none))
      (not_below a.argc argc)
    ∙ ap (rev_parsed lib files stdin a) (ap (λ o. options o none) opts ∙ options-file names none)
    ∙ ap
        (λ b.
          if b
          then run_source (rev_lines lib files stdin)
              (open_source files stdin (last_file names none))
          else exited 1 (invalid ∷ []))
        ((==_iff a.optind a.argc).1 operand)
    ∙ ap (run_source (rev_lines lib files stdin)) opened
    ∙ rev_lines-reversed lib files stdin s t f
