-- ===== src/Look/Prefix.antt =====
-- p1/my-look.c prints the lines that start with the prefix, whatever the case of their letters.
use cs537_spring.Prelude.{
  lt→ltb, ℕ, suc, ◌+◌, ◌-◌, ◌<◌, ◌≡◌, ◌↔◌, ==_iff, refl, arith, leb, ◌==◌, if◌then◌else◌, Bool,
  true, false, ◌&&◌, List, [], ◌∷◌, map, Option, none, some, length, take, All, Bool-cases, inl,
  inr, ap, ◌∙◌, sym,
}
use cs537_spring.Utility.{
  Text, Item, text, file, Outcome, exited, printed, Source, options, open_source, run_source,
  c_string, Stdio,
}
use cs537_spring.Utility.Lines.{
  lines, IsText, Fits, GoodLine, lines-GoodLine, over_lines, each_line-lines,
}
use cs537_spring.Utility.Source.{last_file, options-file, c_string-text, not_below}
use cs537_spring.Look.{invalid, aborted, Args, look_line, look_lines, look_parsed, look}

-- `tolower`, for ASCII.
abbrev pub lower : ℕ → ℕ
lower c = if leb 65 c && leb c 90 then c + 32 else c

unfoldable pub has_prefix : Text → Text → Bool
has_prefix [] l = true
has_prefix (p ∷ ps) [] = false
has_prefix (p ∷ ps) (c ∷ l) = (lower p == lower c) && has_prefix ps l

-- The lines with the prefix, as they are printed.
unfoldable pub kept : Text → List Text → List Item
kept prefix [] = []
kept prefix (l ∷ ls) = if has_prefix prefix l then text l ∷ kept prefix ls else kept prefix ls

-- What `strncasecmp` is documented to compare.
abbrev pub ComparesFolded : (Text → Text → ℕ → ℕ) → Type 0
ComparesFolded strncasecmp =
    (a b : Text) (n : ℕ) → (strncasecmp a b n ≡ 0) ↔ (map lower (take n a) ≡ map lower (take n b))

and_true : {a b : Bool} → a ≡ true → b ≡ true → (a && b) ≡ true
and_true h k = ground (arith, h, k)

true_and : {a b : Bool} → (a && b) ≡ true → (a ≡ true) × (b ≡ true)
true_and {a = true} h = (refl, h)
true_and {a = false} h = absurd (cc h)

cons_iff : (a b : ℕ) (p l : Text) → (a ∷ p ≡ b ∷ l) ↔ ((a ≡ b) × (p ≡ l))
cons_iff a b p l = (λ e. (cc e, cc e), λ e. cc (e.0, e.1))

has_prefix-take :
    (p l : Text)
    → (map lower (take (length p) p) ≡ map lower (take (length p) l)) ↔ (has_prefix p l ≡ true)
unfolding has_prefix
has_prefix-take [] l = (λ e. refl, λ e. refl)
has_prefix-take (c ∷ p) [] = (λ e. absurd (cc e), λ e. cc e)
has_prefix-take (c ∷ p) (d ∷ l) =
    let (to, from) =
      cons_iff (lower c) (lower d) (map lower (take (length p) p))
        (map lower (take (length p) l)) in
    let (there, back) = has_prefix-take p l in
    let (numbers, tests) = ==_iff (lower c) (lower d) in
    (
      λ e. and_true (tests (to e).0) (there (to e).1),
      λ e. from (numbers (true_and e).0, back (true_and e).1),
    )

same_test : (a : ℕ) (b : Bool) → (a ≡ 0) ↔ (b ≡ true) → (a == 0) ≡ b
same_test a b h = elim (Bool-cases b) [
  | inl e ↦ (==_iff a 0).1 (h.1 e) ∙ sym e
  | inr e ↦ ground (arith, e, h)
]

both : {A B C : Type 0} → A ↔ B → B ↔ C → A ↔ C
both (f, g) (h, k) = (λ a. h (f a), λ c. g (k c))

printed_if :
    (b : Bool) (l : Text) (items : List Item)
    → (if b then printed l (exited 0 items) else exited 0 items)
      ≡ exited 0 (if b then text l ∷ items else items)
unfolding printed
printed_if true l items = refl
printed_if false l items = refl

module _ (strncasecmp : Text → Text → ℕ → ℕ) (cmp : ComparesFolded strncasecmp) (prefix : Text)
    (p : 0 < length prefix) where
  -- A round on a line.
  look_line-text :
      (l : Text) (rest : Outcome)
      → IsText l
      → look_line strncasecmp prefix l rest ≡ (if has_prefix prefix l then printed l rest else rest)
  look_line-text l rest t =
      ap
        (λ b.
          if b
          then if strncasecmp prefix (c_string l) (length prefix) == 0
            then printed (c_string l) rest
            else rest
          else aborted [])
        (lt→ltb 0 (length prefix) p)
      ∙ ap (λ s. if strncasecmp prefix s (length prefix) == 0 then printed s rest else rest)
          (c_string-text l t)
      ∙ ap (λ b. if b then printed l rest else rest)
          (same_test _ _ (both (cmp prefix l (length prefix)) (has_prefix-take prefix l)))

  over_lines-kept :
      (ls : List Text)
      → All GoodLine ls
      → over_lines (look_line strncasecmp prefix) ls ≡ exited 0 (kept prefix ls)
  unfolding over_lines kept
  over_lines-kept [] g = refl
  over_lines-kept (l ∷ ls) (g, gs) =
      ap (look_line strncasecmp prefix l) (over_lines-kept ls gs)
      ∙ look_line-text l _ g.1
      ∙ printed_if (has_prefix prefix l) l (kept prefix ls)

  look_lines-kept :
      (lib : Stdio) (files : Text → Option Text) (stdin s : Text)
      → IsText s
      → Fits 127 (lines s)
      → look_lines lib strncasecmp files stdin prefix s ≡ exited 0 (kept prefix (lines s))
  unfolding look_lines
  look_lines-kept lib files stdin s t f =
      each_line-lines lib 127 (look_line strncasecmp prefix) (suc (length s)) s (omega arith)
        (omega arith) f
      ∙ over_lines-kept (lines s) (lines-GoodLine s t)

  -- `my-look` with options -f only and one operand, a prefix that is not empty, reads the file that
  -- the last -f names, or the standard input. If that is a text without zero bytes and with lines of
  -- at most 127 bytes, then it prints exactly the lines that start with the prefix up to the case of
  -- letters, in their order, and returns 0.
  pub look-kept :
      (lib : Stdio) (files : Text → Option Text) (stdin s : Text) (a : Args) (names : List Text)
      → a.opts ≡ map file names
      → 0 < a.argc
      → a.optind ≡ a.argc - 1
      → a.argv a.optind ≡ prefix
      → open_source files stdin (last_file names none) ≡ some s
      → IsText s
      → Fits 127 (lines s)
      → look lib strncasecmp files stdin a ≡ exited 0 (kept prefix (lines s))
  unfolding look
  look-kept lib files stdin s a names opts argc operand arg opened t f =
      ap
        (λ b.
          if b
          then exited 1 (invalid ∷ [])
          else look_parsed lib strncasecmp files stdin a (options a.opts none))
        (not_below a.argc argc)
      ∙ ap (look_parsed lib strncasecmp files stdin a)
          (ap (λ o. options o none) opts ∙ options-file names none)
      ∙ ap
          (λ b.
            if b
            then run_source (look_lines lib strncasecmp files stdin (a.argv a.optind))
                (open_source files stdin source)
            else exited 1 (invalid ∷ []))
          ((==_iff a.optind (a.argc - 1)).1 operand)
      ∙ ap (run_source (look_lines lib strncasecmp files stdin (a.argv a.optind))) opened
      ∙ ap (λ q. look_lines lib strncasecmp files stdin q s) arg
      ∙ look_lines-kept lib files stdin s t f
    where
      source : Source
      source = last_file names none
