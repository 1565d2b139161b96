-- ===== src/Utility/Tests.antt =====
-- A C library to run the utilities of p1 with.
use cs537_spring.Prelude.{
  ℕ, zero, suc, ◌≡◌, ◌≢◌, refl, arith, ◌==◌, if◌then◌else◌, [], ◌∷◌, Option, none, some, subst, sym,
}
use native.Mathlib.Decide.{ℕ_discrete}
use cs537_spring.Utility.{Text, newline, Reads, full, at_end, at_newline, byte, Stdio}

unfoldable pub read : ℕ → Text → Text × Text
read zero s = ([], s)
read (suc n) [] = ([], [])
read (suc n) (c ∷ s) =
    let (line, rest) = read n s in if c == newline then (newline ∷ [], s) else (c ∷ line, rest)

read-byte :
    (n c : ℕ) (s : Text) → c ≢ newline → read (suc n) (c ∷ s) ≡ (c ∷ (read n s).0, (read n s).1)
unfolding read
read-byte n c s h = ground arith

abbrev pub ReadsPair : ℕ → Text → Text × Text → Type 0
ReadsPair n s p = Reads n s p.0 p.1

pub read-Reads : (n : ℕ) (s : Text) → ReadsPair n s (read n s)
unfolding read
read-Reads zero s = full
read-Reads (suc n) [] = at_end
read-Reads (suc n) (c ∷ s) = elim (ℕ_discrete c newline) [
  | yes e ↦ subst (λ d. ReadsPair (suc n) (d ∷ s) (read (suc n) (d ∷ s))) (sym e) at_newline
  | no e ↦ subst (ReadsPair (suc n) (c ∷ s)) (sym (read-byte n c s e)) (byte e (read-Reads n s))
]

abbrev pub fgets : ℕ → Text → Option (Text × Text)
fgets n [] = none
fgets zero (c ∷ s) = none
fgets (suc n) (c ∷ s) = some (read n (c ∷ s))

abbrev pub c_library : Stdio
c_library = record {
  fgets = fgets;
  fgets_null = λ n. refl;
  fgets_line = λ n c s h. ((read n (c ∷ s)).0, (read n (c ∷ s)).1, refl, read-Reads n (c ∷ s));
}
