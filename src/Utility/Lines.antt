-- ===== src/Utility/Lines.antt =====
-- The lines of a file of p1, and that `fgets` reads them one by one where they fit.
use cs537_spring.Prelude.{
  length-append, ℕ, zero, suc, ◌<◌, ◌≤◌, ◌≡◌, ◌≢◌, refl, arith, List, [], ◌∷◌, ◌++◌, ap, ◌∙◌,
  length, All, ◌==◌, if◌then◌else◌, sym, subst,
}
use native.Mathlib.Decide.{ℕ_discrete}
use cs537_spring.Utility.{
  Stdio, round, exited, Outcome, each_line, Text, newline, Reads, full, at_end, at_newline, byte,
}

-- A byte in front of the first line.
abbrev pub attach : ℕ → List Text → List Text
attach c [] = (c ∷ []) ∷ []
attach c (l ∷ ls) = (c ∷ l) ∷ ls

-- The lines of a file, each with its newline.
unfoldable pub lines : Text → List Text
lines [] = []
lines (c ∷ s) = if c == newline then (newline ∷ []) ∷ lines s else attach c (lines s)

-- No byte is zero.
abbrev pub IsText : Text → Type 0
IsText = All (λ c. 0 < c)

abbrev pub Fits : ℕ → List Text → Type 0
Fits n = All (λ l. length l ≤ n)

FirstFits : ℕ → List Text → Type 0
FirstFits n [] = Unit
FirstFits n (l ∷ ls) = length l ≤ n

FirstFits-attach : (n c : ℕ) (ls : List Text) → FirstFits (suc n) (attach c ls) → FirstFits n ls
unfolding FirstFits
FirstFits-attach n c [] h = tt
FirstFits-attach n c (l ∷ ls) h = omega arith

FirstFits-zero : (c : ℕ) (ls : List Text) → ¬ FirstFits 0 (attach c ls)
unfolding FirstFits
FirstFits-zero c [] h = omega arith
FirstFits-zero c (l ∷ ls) h = omega arith

pub lines-newline : (s : Text) → lines (newline ∷ s) ≡ (newline ∷ []) ∷ lines s
unfolding lines
lines-newline s = refl

pub lines-byte : (c : ℕ) (s : Text) → c ≢ newline → lines (c ∷ s) ≡ attach c (lines s)
unfolding lines
lines-byte c s h = ground arith

one_byte : (ls : List Text) → ¬ FirstFits 0 ((newline ∷ []) ∷ ls)
unfolding FirstFits
one_byte ls h = omega arith

lines-none : (s : Text) → FirstFits 0 (lines s) → s ≡ []
lines-none [] h = refl
lines-none (c ∷ s) h = elim (ℕ_discrete c newline) [
  | yes e ↦
      absurd
        (one_byte (lines s) (subst (FirstFits 0) (ap (λ d. lines (d ∷ s)) e ∙ lines-newline s) h))
  | no e ↦ absurd (FirstFits-zero c (lines s) (subst (FirstFits 0) (lines-byte c s e) h))
]

Reads-empty : {n : ℕ} {s rest : Text} → Reads n s [] rest → FirstFits n (lines s) → rest ≡ []
unfolding lines
Reads-empty {s = s} full h = lines-none s h
Reads-empty at_end h = refl

-- The line before the others, unless it is empty.
put_line : Text → List Text → List Text
put_line [] ls = ls
put_line (c ∷ l) ls = (c ∷ l) ∷ ls

attach-put_line :
    (c : ℕ) (l rest : Text)
    → (l ≡ [] → rest ≡ [])
    → attach c (put_line l (lines rest)) ≡ (c ∷ l) ∷ lines rest
unfolding put_line lines
attach-put_line c [] rest h =
    ap (λ r. attach c (lines r)) (h refl) ∙ sym (ap (λ r. (c ∷ []) ∷ lines r) (h refl))
attach-put_line c (d ∷ l) rest h = refl

lines-Reads :
    {n : ℕ} {s line rest : Text}
    → Reads n s line rest
    → FirstFits n (lines s)
    → lines s ≡ put_line line (lines rest)
unfolding put_line
lines-Reads full h = refl
lines-Reads at_end h = refl
lines-Reads at_newline h = lines-newline _
lines-Reads (byte {n = n} {c = c} {s = s} {line = line} {rest = rest} e r) h =
    lines-byte c s e
    ∙ ap (attach c) (lines-Reads r fits)
    ∙ attach-put_line c line rest λ z. Reads-empty (subst (λ l. Reads n s l rest) z r) fits
  where
    fits : FirstFits n (lines s)
    fits = FirstFits-attach n c (lines s) (subst (FirstFits (suc n)) (lines-byte c s e) h)

Reads-append : {n : ℕ} {s line rest : Text} → Reads n s line rest → s ≡ line ++ rest
Reads-append full = refl
Reads-append at_end = refl
Reads-append at_newline = refl
Reads-append (byte {c = c} e r) = ap (λ t. c ∷ t) (Reads-append r)

Reads-shorter :
    {n c : ℕ} {s line rest : Text} → Reads (suc n) (c ∷ s) line rest → length rest < length (c ∷ s)
Reads-shorter at_newline = omega arith
Reads-shorter (byte {line = line} {rest = rest} e r) =
    omega (arith, ap length (Reads-append r), length-append line rest)

-- Bytes without a newline, and perhaps one at the end.
pub data IsLine : Text → Type 0 where
  unended : (b : Text) → All (λ c. c ≢ newline) b → IsLine b
  ended : (b : Text) → All (λ c. c ≢ newline) b → IsLine (b ++ (newline ∷ []))

IsLine-cons : {c : ℕ} {l : Text} → c ≢ newline → IsLine l → IsLine (c ∷ l)
IsLine-cons {c = c} e (unended b h) = unended (c ∷ b) (e, h)
IsLine-cons {c = c} e (ended b h) = ended (c ∷ b) (e, h)

put_line-Reads :
    {n c : ℕ} {s line rest : Text} (ls : List Text)
    → Reads (suc n) (c ∷ s) line rest
    → put_line line ls ≡ line ∷ ls
unfolding put_line
put_line-Reads ls at_newline = refl
put_line-Reads ls (byte e r) = refl

-- A line of a text: not empty, without a zero, and with a newline only at its end.
abbrev pub GoodLine : Text → Type 0
GoodLine l = (0 < length l) × IsText l × IsLine l

GoodLine-attach :
    (c : ℕ) (ls : List Text) → 0 < c → c ≢ newline → All GoodLine ls → All GoodLine (attach c ls)
GoodLine-attach c [] p e h = ((omega arith, (p, tt), unended (c ∷ []) (e, tt)), tt)
GoodLine-attach c (l ∷ ls) p e ((q, t, k), h) = ((omega arith, (p, t), IsLine-cons e k), h)

pub lines-GoodLine : (s : Text) → IsText s → All GoodLine (lines s)
unfolding lines
lines-GoodLine [] h = tt
lines-GoodLine (c ∷ s) (p, h) = elim (ℕ_discrete c newline) [
  | yes e ↦
      subst (λ d. All GoodLine (lines (d ∷ s))) (sym e)
        ((omega arith, (omega arith, tt), ended [] tt), lines-GoodLine s h)
  | no e ↦
      subst (All GoodLine) (sym (lines-byte c s e))
        (GoodLine-attach c (lines s) p e (lines-GoodLine s h))
]

FirstFits-all : (n : ℕ) (ls : List Text) → Fits n ls → FirstFits n ls
unfolding FirstFits
FirstFits-all n [] h = tt
FirstFits-all n (l ∷ ls) h = h.0

-- What a program does with the lines one after another.
unfoldable pub over_lines : (Text → Outcome → Outcome) → List Text → Outcome
over_lines step [] = exited 0 []
over_lines step (l ∷ ls) = step l (over_lines step ls)

-- The loop over `fgets` is a loop over the lines of the file, where they fit into the buffer.
pub each_line-lines :
    (c : Stdio) (n : ℕ) (step : Text → Outcome → Outcome) (fuel : ℕ) (s : Text)
    → 0 < n
    → length s < fuel
    → Fits n (lines s)
    → each_line c (suc n) step fuel s ≡ over_lines step (lines s)
unfolding each_line over_lines lines
each_line-lines c n step zero s h f fits = absurd (omega arith)
each_line-lines c n step (suc fuel) [] h f fits =
    ap (round c (suc n) step (each_line c (suc n) step fuel)) (c.fgets_null (suc n))
each_line-lines c zero step (suc fuel) (d ∷ s) h f fits = elim h [ ]
each_line-lines c (suc n) step (suc fuel) (d ∷ s) h f fits =
    let (line, rest, e, r) = c.fgets_line (suc n) d s h in
    let ls : lines (d ∷ s) ≡ line ∷ lines rest =
      lines-Reads r (FirstFits-all (suc n) (lines (d ∷ s)) fits) ∙ put_line-Reads (lines rest) r in
    ap (round c (suc (suc n)) step (each_line c (suc (suc n)) step fuel)) e
    ∙ ap (step line) (
        each_line-lines c (suc n) step fuel rest h (omega (arith, Reads-shorter r))
          (subst (Fits (suc n)) ls fits).1)
    ∙ sym (ap (over_lines step) ls)
