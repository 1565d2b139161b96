-- ===== src/Look.antt =====
-- p1/my-look.c: `parse_args` and `main`. `strncasecmp`, which gives a C int as an unsigned word, and
-- the contents of the files are arguments, and so are the C library's `getopt` and `fgets`.
pub mod Prefix
mod Tests
use cs537_spring.Prelude.{
  ℕ, suc, ◌-◌, ltb, ◌==◌, if◌then◌else◌, List, [], ◌∷◌, Option, none, some, length,
}
use cs537_spring.Utility.{
  Text, Opt, invalid, Outcome, exited, aborted, printed, Parsed, stop, go, options, open_source,
  run_source, c_string, Stdio, each_line,
}

-- BUF_SIZE
abbrev pub buf_size : ℕ
buf_size = 128

-- The command line: what `getopt` returned, `argc`, and `optind` and `argv` afterwards.
pub record Args : Type 0 where
  pub opts : List Opt
  pub argc : ℕ
  pub optind : ℕ
  pub argv : ℕ → Text

-- The body of the loop, before what the other rounds do.
abbrev pub look_line : (Text → Text → ℕ → ℕ) → Text → Text → Outcome → Outcome
look_line strncasecmp prefix buf rest =
    let len = length prefix in
    if ltb 0 len
    then if strncasecmp prefix (c_string buf) len == 0 then printed (c_string buf) rest else rest
    else aborted []

module _ (lib : Stdio) (strncasecmp : Text → Text → ℕ → ℕ) (files : Text → Option Text)
    (stdin : Text) where
  -- Each round reads a byte at least.
  unfoldable pub look_lines : Text → Text → Outcome
  look_lines prefix s = each_line lib buf_size (look_line strncasecmp prefix) (suc (length s)) s

  -- `parse_args` behind its loop, and the rest of `main`.
  abbrev pub look_parsed : Args → Parsed → Outcome
  look_parsed a (stop code message) = exited code (message ∷ [])
  look_parsed a (go source) =
      if a.optind == a.argc - 1
      then run_source (look_lines (a.argv a.optind)) (open_source files stdin source)
      else exited 1 (invalid ∷ [])

  -- `main`
  unfoldable pub look : Args → Outcome
  look a = if ltb a.argc 1 then exited 1 (invalid ∷ []) else look_parsed a (options a.opts none)
