-- ===== src/Shell/Interactive.antt =====
-- `interactive_mode` of p3/mysh.c: the lines that a user types. It repeats `batch_mode` but for the
-- node of a new alias, whose `next` is left as `malloc` gives it. The prompt and what `fgets` reads
-- are outside; the end of the input is the end of the list of lines.
pub mod Safe
use cs537_spring.Prelude.{
  ℕ, ◌+◌, Option, none, some, List, [], ◌∷◌, length, get_elem?, update, leb, ◌==◌, if◌then◌else◌,
}
use cs537_spring.Shell.Word.{Word, same_word, words, is_blank}
use cs537_spring.Shell.Alias.{
  if_written, Node, Shell, sentinel, Result, ok, fault, out_of_fuel, check_alias, add_node_path,
  replace_path,
}
use cs537_spring.Shell.Redirect.{redirect}
use cs537_spring.Shell.Batch.{
  Reply, stop, idle, dangerous, changed, exit_line, alias_word, unalias_word, max_line_cmds,
  is_dangerous, list_from, listing, print_found, replied, unalias_command, launch_found, after_line,
}

-- A node behind the last one. Its `next` is what was in the memory.
abbrev pub with_unset : Word → ℕ → (ℕ → Option Word) → Shell → Shell
with_unset alias num path s =
    let new : Node = record {
      alias = alias;
      path = path;
      num = num;
      next = (s.nodes s.fresh).next;
      prev = some s.tail;
    } in
    let f = update s.nodes s.fresh new in
    record s {
      nodes = update f s.tail (record (f s.tail) { next = some s.fresh });
      fresh = s.fresh + 1;
      tail = s.fresh;
    }

-- A new alias.
abbrev pub append_unset : Word → List Word → Shell → Result (Unit {0})
append_unset alias path s =
    if_written (add_node_path (length path) (get_elem? path) (s.nodes s.fresh).path)
      λ written. ok tt (with_unset alias (length path) written s)

unfoldable pub define_unset : Word → List Word → Shell → Option (Option ℕ) → Result (Unit {0})
define_unset alias path s none = out_of_fuel
define_unset alias path s (some none) = append_unset alias path s
define_unset alias path s (some (some d)) = replace_path path d s

-- The command `alias`, by the words after it: print all, print one, or define.
unfoldable pub interactive_alias : List Word → Shell → Result Reply
unfolding print_found replied list_from define_unset
interactive_alias [] s = listing (list_from s.fresh s (s.nodes sentinel).next)
interactive_alias (a ∷ []) s = print_found s (check_alias s a)
interactive_alias (a ∷ w ∷ path) s =
    if is_dangerous a
    then ok dangerous s
    else replied changed (define_unset a (w ∷ path) s (check_alias s a))

-- A line by its words. What follows the command `alias` repeats `batch_mode` and is shared with it.
unfoldable pub interactive_words : Word → List Word → Shell → Result Reply
unfolding launch_found
interactive_words line [] s = ok idle s
interactive_words line (c ∷ args) s =
    if same_word c alias_word
    then interactive_alias args s
    else if same_word c unalias_word
    then unalias_command args s
    else launch_found s (c ∷ args) (redirect line) (check_alias s c)

-- One line.
unfoldable pub interactive_line : Word → Shell → Result Reply
unfolding interactive_words
interactive_line line s =
    if same_word line exit_line
    then ok stop s
    else if leb max_line_cmds (length (words is_blank line))
    then fault
    else interactive_words line (words is_blank line) s

-- The lines typed, up to `exit`.
unfoldable pub interactive_mode : List Word → Shell → Result (List Reply)
interactive_mode [] s = ok [] s
interactive_mode (line ∷ lines) s = after_line (interactive_line line s) (interactive_mode lines)
