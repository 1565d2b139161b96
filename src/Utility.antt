-- ===== src/Utility.antt =====
-- What p1/my-look.c and p1/my-rev.c share: the command line as `getopt` gives it, the files, and
-- the lines that `fgets` reads. The C library is a parameter; a file is the list of its bytes.
pub mod Lines
pub mod Source
pub mod Tests
use cs537_spring.Prelude.{
  ℕ, zero, suc, ◌<◌, ◌≡◌, ◌≢◌, List, [], ◌∷◌, Option, none, some, ◌==◌, if◌then◌else◌,
}

abbrev pub Text : Type 0
Text = List ℕ

-- What a call of `getopt(argc, argv, "Vhf:")` returns, besides -1.
pub data Opt : Type 0 where
  version help other : Opt
  file : Text → Opt

-- The messages, and the two ways to end; the list is what has been handed to `printf`.
pub data Item : Type 0 where
  version_text usage invalid cannot_open : Item
  text : Text → Item

pub data Outcome : Type 0 where
  exited : ℕ → List Item → Outcome
  aborted : List Item → Outcome
  out_of_fuel : Outcome

-- `printf` of a string before what follows.
unfoldable pub printed : Text → Outcome → Outcome
printed t (exited code items) = exited code (text t ∷ items)
printed t (aborted items) = aborted (text t ∷ items)
printed t out_of_fuel = out_of_fuel

-- The static variables `use_stdin` and `fname`: the name where the input is a file.
abbrev pub Source : Type 0
Source = Option Text

-- The loop over the options: an exit, or the source of the input.
pub data Parsed : Type 0 where
  stop : ℕ → Item → Parsed
  go : Source → Parsed

unfoldable pub options : List Opt → Source → Parsed
options [] source = go source
options (version ∷ opts) source = stop 0 version_text
options (help ∷ opts) source = stop 0 usage
options (other ∷ opts) source = stop 1 invalid
options (file fname ∷ opts) source = options opts (some fname)

-- `stdin`, or `fopen` of the named file.
abbrev pub open_source : (Text → Option Text) → Text → Source → Option Text
open_source files stdin none = some stdin
open_source files stdin (some fname) = files fname

-- A string ends at its first zero byte.
unfoldable pub c_string : Text → Text
c_string [] = []
c_string (c ∷ s) = if c == 0 then [] else c ∷ c_string s

abbrev pub newline : ℕ
newline = 10

-- What `fgets` is documented to read from a file into a buffer with room for that many bytes: up
-- to a newline, the end of the file or the last free byte.
pub data Reads : ℕ → Text → Text → Text → Type 0 where
  full : {s : Text} → Reads 0 s [] s
  at_end : {n : ℕ} → Reads n [] [] []
  at_newline : {n : ℕ} {s : Text} → Reads (suc n) (newline ∷ s) (newline ∷ []) s
  byte :
      {n c : ℕ} {s line rest : Text}
      → c ≢ newline
      → Reads n s line rest
      → Reads (suc n) (c ∷ s) (c ∷ line) rest

-- `fgets(buf, n, fp)`: null at the end of the file, or the line and the rest of the file.
pub record Stdio : Type 0 where
  pub fgets : ℕ → Text → Option (Text × Text)
  pub fgets_null : (n : ℕ) → fgets n [] ≡ none
  pub fgets_line :
      (n c : ℕ) (s : Text)
      → 0 < n
      → (line : Text) × (rest : Text) × (fgets (suc n) (c ∷ s) ≡ some (line, rest))
        × Reads n (c ∷ s) line rest

module _ (c : Stdio) (size : ℕ) (step : Text → Outcome → Outcome) where
  -- `while (fgets(buf, BUF_SIZE, fp) != NULL)`, for at most so many rounds.
  abbrev pub round : (Text → Outcome) → Option (Text × Text) → Outcome
  round next none = exited 0 []
  round next (some (buf, rest)) = step buf (next rest)

  unfoldable pub each_line : ℕ → Text → Outcome
  each_line zero s = out_of_fuel
  each_line (suc fuel) s = round (each_line fuel) (c.fgets size s)

-- The end of `parse_args` and `main`: the options, the operands, the file, and the loop.
abbrev pub run_source : (Text → Outcome) → Option Text → Outcome
run_source loop none = exited 1 (cannot_open ∷ [])
run_source loop (some s) = loop s
