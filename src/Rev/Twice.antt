-- ===== src/Rev/Twice.antt =====
-- p1/my-rev.c on its own output.
use mathlib.Core.List.{reverse, reverse_aux, reverse-reverse, append-nil, append_assoc}
use native.Mathlib.Decide.{ℕ_discrete}
use cs537_spring.Prelude.{
  ℕ, ◌+◌, ◌<◌, ◌≡◌, ◌≢◌, refl, arith, List, [], ◌∷◌, ◌++◌, map, Option, length, length-append, All,
  ap, ◌∙◌, sym, subst,
}
use cs537_spring.Utility.{Text, Item, text, exited, Stdio, newline}
use cs537_spring.Utility.Lines.{
  attach, lines, IsText, Fits, GoodLine, lines-GoodLine, lines-newline, lines-byte,
}
use cs537_spring.Rev.Main.{rev_lines}
use cs537_spring.Rev.Lines.{
  body, ending, reversed_line, NoNewline, body-append, body_self, ending-append, ending_self,
}
use cs537_spring.Rev.Program.{all_reversed, IsText-append, IsText-reversed_line, rev_lines-reversed}

-- The bytes of a list of strings.
unfoldable pub flat : List Text → Text
flat [] = []
flat (l ∷ ls) = l ++ flat ls

lines-ended :
    (b t : Text) → NoNewline b → lines (b ++ (newline ∷ t)) ≡ (b ++ (newline ∷ [])) ∷ lines t
lines-ended [] t h = lines-newline t
lines-ended (c ∷ b) t h =
    lines-byte c (b ++ (newline ∷ t)) h.0 ∙ ap (attach c) (lines-ended b t h.1)

lines-unended : (b : Text) → 0 < length b → NoNewline b → lines b ≡ b ∷ []
unfolding lines
lines-unended [] p h = elim p [ ]
lines-unended (c ∷ []) p h = lines-byte c [] h.0
lines-unended (c ∷ d ∷ b) p h =
    lines-byte c (d ∷ b) h.0 ∙ ap (attach c) (lines-unended (d ∷ b) (omega arith) h.1)

-- A file is a line after the other, and perhaps bytes without a newline.
data Parts : Text → Type 0 where
  nothing : Parts []
  last : (b : Text) → 0 < length b → NoNewline b → Parts b
  next : (b t : Text) → NoNewline b → Parts t → Parts (b ++ (newline ∷ t))

Parts-cons : (c : ℕ) (s : Text) → c ≢ newline → Parts s → Parts (c ∷ s)
Parts-cons c s h nothing = last (c ∷ []) (omega arith) (h, tt)
Parts-cons c s h (last b p k) = last (c ∷ b) (omega arith) (h, k)
Parts-cons c s h (next b t k p) = next (c ∷ b) t (h, k) p

parts : (s : Text) → Parts s
parts [] = nothing
parts (c ∷ s) = elim (ℕ_discrete c newline) [
  | yes e ↦ subst (λ d. Parts (d ∷ s)) (sym e) (next [] s tt (parts s))
  | no e ↦ Parts-cons c s e (parts s)
]

NoNewline-reverse_aux : (a b : Text) → NoNewline a → NoNewline b → NoNewline (reverse_aux a b)
NoNewline-reverse_aux [] b h k = k
NoNewline-reverse_aux (c ∷ a) b h k = NoNewline-reverse_aux a (c ∷ b) h.1 (h.0, k)

NoNewline-reverse : (b : Text) → NoNewline b → NoNewline (reverse b)
NoNewline-reverse b h = NoNewline-reverse_aux b [] h tt

reversed_line-ended :
    (b : Text) → NoNewline b → reversed_line (b ++ (newline ∷ [])) ≡ reverse b ++ (newline ∷ [])
unfolding reversed_line
reversed_line-ended b h =
    ap (λ x. reverse x ++ ending (b ++ (newline ∷ []))) (body-append b [] h)
    ∙ ap (λ e. reverse b ++ e) (ending-append b [] h)

reversed_line-unended : (b : Text) → NoNewline b → reversed_line b ≡ reverse b
unfolding reversed_line
reversed_line-unended b h =
    ap (λ x. reverse x ++ ending b) (body_self b h)
    ∙ ap (λ e. reverse b ++ e) (ending_self b h)
    ∙ append-nil (reverse b)

-- What a run prints, as a file.
flip : Text → Text
flip s = flat (map reversed_line (lines s))

flip-next : (b t : Text) → NoNewline b → flip (b ++ (newline ∷ t)) ≡ reverse b ++ (newline ∷ flip t)
unfolding flip flat
flip-next b t h =
    ap (λ ls. flat (map reversed_line ls)) (lines-ended b t h)
    ∙ ap (λ l. l ++ flip t) (reversed_line-ended b h)
    ∙ append_assoc (reverse b) (newline ∷ []) (flip t)

flip-last : (b : Text) → 0 < length b → NoNewline b → flip b ≡ reverse b
unfolding flip flat
flip-last b p h =
    ap (λ ls. flat (map reversed_line ls)) (lines-unended b p h)
    ∙ append-nil (reversed_line b)
    ∙ reversed_line-unended b h

length-reverse_aux : (a b : Text) → length (reverse_aux a b) ≡ length a + length b
length-reverse_aux [] b = omega arith
length-reverse_aux (c ∷ a) b = omega (arith, length-reverse_aux a (c ∷ b))

reverse_pos : (b : Text) → 0 < length b → 0 < length (reverse b)
reverse_pos b p = omega (arith, length-reverse_aux b [])

lines-flip : (s : Text) → Parts s → lines (flip s) ≡ map reversed_line (lines s)
unfolding flip flat lines
lines-flip s nothing = refl
lines-flip s (last b p h) =
    ap lines (flip-last b p h)
    ∙ lines-unended (reverse b) (reverse_pos b p) (NoNewline-reverse b h)
    ∙ sym (ap (λ l. l ∷ []) (reversed_line-unended b h))
    ∙ sym (ap (map reversed_line) (lines-unended b p h))
lines-flip s (next b t h p) =
    ap lines (flip-next b t h)
    ∙ lines-ended (reverse b) (flip t) (NoNewline-reverse b h)
    ∙ ap (λ ls. (reverse b ++ (newline ∷ [])) ∷ ls) (lines-flip t p)
    ∙ sym (ap (λ l. l ∷ map reversed_line (lines t)) (reversed_line-ended b h))
    ∙ sym (ap (map reversed_line) (lines-ended b t h))

flip-flip : (s : Text) → Parts s → flip (flip s) ≡ s
unfolding flip flat lines
flip-flip s nothing = refl
flip-flip s (last b p h) =
    ap flip (flip-last b p h)
    ∙ flip-last (reverse b) (reverse_pos b p) (NoNewline-reverse b h)
    ∙ reverse-reverse b
flip-flip s (next b t h p) =
    ap flip (flip-next b t h)
    ∙ flip-next (reverse b) (flip t) (NoNewline-reverse b h)
    ∙ ap (λ x. x ++ (newline ∷ flip (flip t))) (reverse-reverse b)
    ∙ ap (λ x. b ++ (newline ∷ x)) (flip-flip t p)

length-body : (l : Text) → length (body l) + length (ending l) ≡ length l
unfolding body ending
length-body [] = refl
length-body (c ∷ l) = ground (arith, length-body l)

length-reversed_line : (l : Text) → length (reversed_line l) ≡ length l
unfolding reversed_line
length-reversed_line l = omega (
  arith,
  length-append (reverse (body l)) (ending l),
  length-reverse_aux (body l) [],
  length-body l,
)

Fits-reversed : (n : ℕ) (ls : List Text) → Fits n ls → Fits n (map reversed_line ls)
Fits-reversed n [] h = tt
Fits-reversed n (l ∷ ls) (h, hs) = (omega (arith, length-reversed_line l), Fits-reversed n ls hs)

IsText-reversed : (ls : List Text) → All GoodLine ls → IsText (flat (map reversed_line ls))
unfolding flat
IsText-reversed [] h = tt
IsText-reversed (l ∷ ls) (h, hs) =
    IsText-append (reversed_line l) (flat (map reversed_line ls)) (IsText-reversed_line l h.1)
      (IsText-reversed ls hs)

-- The strings that a run prints.
abbrev pub strings : List Text → List Item
strings = map (λ l. text l)

map-map : (ls : List Text) → all_reversed ls ≡ strings (map reversed_line ls)
map-map [] = refl
map-map (l ∷ ls) = ap (λ r. text (reversed_line l) ∷ r) (map-map ls)

-- `my-rev` on a text without zero bytes and with lines of at most 99 bytes prints strings which,
-- read as a file by a second run of `my-rev`, make that run print the text itself.
pub rev_lines-rev_lines :
    (lib : Stdio) (files : Text → Option Text) (stdin s : Text)
    → IsText s
    → Fits 99 (lines s)
    → (first : List Text) × (second : List Text) × (rev_lines lib files stdin s
        ≡ exited 0 (strings first))
      × (rev_lines lib files stdin (flat first) ≡ exited 0 (strings second))
      × (flat second ≡ s)
unfolding flip
rev_lines-rev_lines lib files stdin s t f = (
  map reversed_line (lines s),
  map reversed_line (lines (flip s)),
  rev_lines-reversed lib files stdin s t f ∙ ap (exited 0) (map-map (lines s)),
  rev_lines-reversed lib files stdin (flip s) (IsText-reversed (lines s) (lines-GoodLine s t))
        (subst (Fits 99) (sym (lines-flip s (parts s))) (Fits-reversed 99 (lines s) f))
      ∙ ap (exited 0) (map-map (lines (flip s))),
  flip-flip s (parts s),
)
