-- ===== src/Rev/Lines.antt =====
-- `reverse_string` of p1/my-rev.c on a line that `fgets` has read.
use mathlib.Core.List.{reverse, append-nil}
use cs537_spring.Prelude.{
  subst, ℕ, zero, suc, ◌-◌, ◌<◌, ◌≤◌, ◌≡◌, ◌≢◌, refl, arith, ◌==◌, subst, if◌then◌else◌, [], ◌∷◌,
  ◌++◌, length, length-append, All, ap, ◌∙◌, sym,
}
use cs537_spring.Utility.{Text, newline}
use cs537_spring.Utility.Lines.{IsLine, unended, ended}
use cs537_spring.Rev.{end_of, reverse_string}
use cs537_spring.Rev.Reverse.{bytes-snoc, bytes, reverse_string_lem}
use cs537_spring.Rev.Main.{buffer}

-- What stands before the first newline, and the rest.
unfoldable pub body : Text → Text
body [] = []
body (c ∷ l) = if c == newline then [] else c ∷ body l

unfoldable pub ending : Text → Text
ending [] = []
ending (c ∷ l) = if c == newline then c ∷ l else ending l

unfoldable pub reversed_line : Text → Text
reversed_line l = reverse (body l) ++ ending l

abbrev pub NoNewline : Text → Type 0
NoNewline = All (λ c. c ≢ newline)

pub body-append : (b e : Text) → NoNewline b → body (b ++ (newline ∷ e)) ≡ b
unfolding body
body-append [] e h = refl
body-append (c ∷ b) e h = ground (arith, h.0, body-append b e h.1)

pub body_self : (b : Text) → NoNewline b → body b ≡ b
unfolding body
body_self [] h = refl
body_self (c ∷ b) h = ground (arith, h.0, body_self b h.1)

pub ending-append : (b e : Text) → NoNewline b → ending (b ++ (newline ∷ e)) ≡ newline ∷ e
unfolding ending
ending-append [] e h = refl
ending-append (c ∷ b) e h = ground (arith, h.0, ending-append b e h.1)

pub ending_self : (b : Text) → NoNewline b → ending b ≡ []
unfolding ending
ending_self [] h = refl
ending_self (c ∷ b) h = ground (arith, h.0, ending_self b h.1)

bytes-buffer : (b x : Text) → bytes (length b) (buffer (b ++ x)) ≡ b
bytes-buffer [] x = refl
bytes-buffer (c ∷ b) x = ap (λ t. c ∷ t) (bytes-buffer b x)

bytes_self : (b : Text) → bytes (length b) (buffer b) ≡ b
bytes_self [] = refl
bytes_self (c ∷ b) = ap (λ t. c ∷ t) (bytes_self b)

buffer-append : (b x : Text) (c : ℕ) → buffer (b ++ (c ∷ x)) (length b) ≡ c
buffer-append [] x c = refl
buffer-append (d ∷ b) x c = buffer-append b x c

buffer-NoNewline : (b : Text) (i : ℕ) → NoNewline b → i < length b → buffer b i ≢ newline
buffer-NoNewline [] i h l = elim l [ ]
buffer-NoNewline (c ∷ b) zero h l = h.0
buffer-NoNewline (c ∷ b) (suc i) h l = buffer-NoNewline b i h.1 (omega arith)

end_of-other : (str : ℕ → ℕ) (len : ℕ) → str (len - 1) ≢ newline → end_of str len ≡ len
end_of-other str len h = ground arith

end_of-newline : (str : ℕ → ℕ) (len : ℕ) → str len ≡ newline → end_of str (suc len) ≡ len
end_of-newline str len h = ground arith

length-ended : (b : Text) → length (b ++ (newline ∷ [])) ≡ suc (length b)
length-ended b = omega (arith, length-append b (newline ∷ []))

reverse_string-unended :
    (l : Text)
    → 0 < length l
    → NoNewline l
    → bytes (length l) (reverse_string (buffer l) (length l)) ≡ reversed_line l
unfolding reversed_line
reverse_string-unended l p h =
    subst (λ n. bytes n (reverse_string (buffer l) (length l)) ≡ reverse (bytes n (buffer l)))
      (end_of-other (buffer l) (length l) (buffer-NoNewline l (length l - 1) h (omega arith)))
      (reverse_string_lem (buffer l) (length l) p).0
    ∙ ap reverse (bytes_self l)
    ∙ sym (append-nil (reverse l))
    ∙ sym (ap (λ b. reverse b ++ []) (body_self l h))
    ∙ sym (ap (λ e. reverse (body l) ++ e) (ending_self l h))

reverse_string-ended :
    (b : Text)
    → NoNewline b
    → (let l = b ++ (newline ∷ []) in
        bytes (suc (length b)) (reverse_string (buffer l) (suc (length b))) ≡ reversed_line l)
unfolding reversed_line
reverse_string-ended b h =
    bytes-snoc (length b) r
    ∙ ap (λ c. bytes (length b) r ++ (c ∷ []))
        (lem.1 (length b) (omega (arith, end)) ∙ buffer-append b [] newline)
    ∙ ap (λ t. t ++ (newline ∷ []))
        (subst (λ n. bytes n r ≡ reverse (bytes n (buffer l))) end lem.0
          ∙ ap reverse (bytes-buffer b (newline ∷ [])))
    ∙ sym (ap (λ t. reverse t ++ (newline ∷ [])) (body-append b [] h))
    ∙ sym (ap (λ e. reverse (body l) ++ e) (ending-append b [] h))
  where
    l : Text
    l = b ++ (newline ∷ [])

    r : ℕ → ℕ
    r = reverse_string (buffer l) (suc (length b))

    end : end_of (buffer l) (suc (length b)) ≡ length b
    end = end_of-newline (buffer l) (length b) (buffer-append b [] newline)

    lem :
        (bytes (end_of (buffer l) (suc (length b))) r
          ≡ reverse (bytes (end_of (buffer l) (suc (length b))) (buffer l)))
        × ((j : ℕ) → end_of (buffer l) (suc (length b)) ≤ j → r j ≡ buffer l j)
    lem = reverse_string_lem (buffer l) (suc (length b)) (omega arith)

-- A line that `fgets` reads as a whole.
pub reverse_string-line :
    (l : Text)
    → 0 < length l
    → IsLine l
    → bytes (length l) (reverse_string (buffer l) (length l)) ≡ reversed_line l
reverse_string-line l p (unended b h) = reverse_string-unended b p h
reverse_string-line l p (ended b h) =
    subst
      (λ n.
        bytes n (reverse_string (buffer (b ++ (newline ∷ []))) n)
        ≡ reversed_line (b ++ (newline ∷ [])))
      (sym (length-ended b)) (reverse_string-ended b h)
