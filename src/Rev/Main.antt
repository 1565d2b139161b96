-- ===== src/Rev/Main.antt =====
-- p1/my-rev.c: `parse_args` and `main`. The contents of the files and the C library's `getopt` and
-- `fgets` are arguments.
use cs537_spring.Prelude.{
  ℕ, zero, suc, ltb, ◌==◌, if◌then◌else◌, List, [], ◌∷◌, Option, none, length,
}
use cs537_spring.Utility.{
  Text, Opt, invalid, Outcome, exited, aborted, printed, Parsed, stop, go, options, open_source,
  run_source, c_string, Stdio, each_line,
}
use cs537_spring.Rev.{reverse_string}
use cs537_spring.Rev.Reverse.{bytes}

-- BUF_SIZE
abbrev pub buf_size : ℕ
buf_size = 100

-- A string in a buffer, with zeros behind it.
abbrev pub buffer : Text → ℕ → ℕ
buffer [] i = 0
buffer (c ∷ s) zero = c
buffer (c ∷ s) (suc i) = buffer s i

-- The body of the loop, before what the other rounds do.
abbrev pub rev_line : Text → Outcome → Outcome
rev_line buf rest =
    let s = c_string buf in
    let len = length s in
    if ltb 0 len
    then printed (c_string (bytes len (reverse_string (buffer s) len))) rest
    else aborted []

-- The command line: what `getopt` returned, `argc`, and `optind` afterwards.
pub record Args : Type 0 where
  pub opts : List Opt
  pub argc : ℕ
  pub optind : ℕ

module _ (lib : Stdio) (files : Text → Option Text) (stdin : Text) where
  -- Each round reads a byte at least.
  unfoldable pub rev_lines : Text → Outcome
  rev_lines s = each_line lib buf_size rev_line (suc (length s)) s

  -- `parse_args` behind its loop, and the rest of `main`.
  abbrev pub rev_parsed : Args → Parsed → Outcome
  rev_parsed a (stop code message) = exited code (message ∷ [])
  rev_parsed a (go source) =
      if a.optind == a.argc
      then run_source rev_lines (open_source files stdin source)
      else exited 1 (invalid ∷ [])

  -- `main`
  unfoldable pub rev : Args → Outcome
  rev a = if ltb a.argc 1 then exited 1 (invalid ∷ []) else rev_parsed a (options a.opts none)
