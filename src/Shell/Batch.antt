-- ===== src/Shell/Batch.antt =====
-- `batch_mode` of p3/mysh.c: one line, and a file of lines. What `fork` returns to the shell, the
-- child's `execv` and the waiting are outside: a command is the reply `launch`. A line is at most
-- 511 bytes, since `fgets` reads it into a buffer of 512.
pub mod Step
pub mod Safe
use cs537_spring.Prelude.{
  ℕ, zero, suc, ◌+◌, Bool, true, false, leb, ◌||◌, Option, none, some, List, [], ◌∷◌, ◌++◌, length,
  if◌then◌else◌, ◌==◌,
}
use cs537_spring.Shell.Word.{Word, same_word, words, is_blank}
use cs537_spring.Shell.Alias.{
  Node, Shell, sentinel, Result, ok, fault, out_of_fuel, check_alias, define_alias, remove_alias,
}
use cs537_spring.Shell.Redirect.{Redirection, none_asked, misformatted, to_file, redirect}

-- What the child executes: the path array of an alias, a redirected command, or the words.
pub data Launch : Type 0 where
  alias_path : (ℕ → Option Word) → Launch
  redirected : Word → List Word → Launch
  plain : List Word → Launch

-- What the shell does for a line, its echo first, besides a change of the aliases.
pub data Reply : Type 0 where
  stop idle dangerous changed unalias_parts bad_redirect : Reply
  echoed : Word → Reply
  listed : List (Word × List Word) → Reply
  launch : Launch → Reply

-- `MAX_LINE_CMDS`, the size of the array `args`.
abbrev pub max_line_cmds : ℕ
max_line_cmds = 100

-- "exit", "alias", "unalias", and "exit\n".
abbrev pub exit_word : Word
exit_word = 101 ∷ 120 ∷ 105 ∷ 116 ∷ []

abbrev pub exit_line : Word
exit_line = 101 ∷ 120 ∷ 105 ∷ 116 ∷ 10 ∷ []

abbrev pub alias_word : Word
alias_word = 97 ∷ 108 ∷ 105 ∷ 97 ∷ 115 ∷ []

abbrev pub unalias_word : Word
unalias_word = 117 ∷ 110 ∷ 97 ∷ 108 ∷ 105 ∷ 97 ∷ 115 ∷ []

-- The `strcat`s of the first `num` entries of a path. There is no result where one is null or was
-- never written.
abbrev pub add_word : Option (List Word) → Option Word → Option (List Word)
add_word (some ws) (some w) = some (ws ++ w ∷ [])
add_word _ _ = none

abbrev pub read_path : ℕ → (ℕ → Option Word) → Option (List Word)
read_path zero path = some []
read_path (suc n) path = add_word (read_path n path) (path n)

abbrev pub add_item :
    Word → Option (List Word) → Result (List (Word × List Word)) → Result (List (Word × List Word))
add_item a none rest = fault
add_item a (some ws) (ok items s) = ok ((a, ws) ∷ items) s
add_item a (some ws) fault = fault
add_item a (some ws) out_of_fuel = out_of_fuel

-- `printList`, from the node `temp` on: the alias and the path of each node.
unfoldable pub list_from : ℕ → Shell → Option ℕ → Result (List (Word × List Word))
list_from zero s temp = out_of_fuel
list_from (suc n) s none = ok [] s
list_from (suc n) s (some i) =
    let c = s.nodes i in add_item c.alias (read_path c.num c.path) (list_from n s c.next)

abbrev pub listing : Result (List (Word × List Word)) → Result Reply
listing (ok items s) = ok (listed items) s
listing fault = fault
listing out_of_fuel = out_of_fuel

abbrev pub print_one : Shell → Word → Option (List Word) → Result Reply
print_one s a none = fault
print_one s a (some ws) = ok (listed ((a, ws) ∷ [])) s

unfoldable pub print_found : Shell → Option (Option ℕ) → Result Reply
print_found s none = out_of_fuel
print_found s (some none) = ok (listed []) s
print_found s (some (some i)) =
    print_one s (s.nodes i).alias (read_path (s.nodes i).num (s.nodes i).path)

unfoldable pub replied : Reply → Result (Unit {0}) → Result Reply
replied r (ok _ s) = ok r s
replied r fault = fault
replied r out_of_fuel = out_of_fuel

abbrev pub is_dangerous : Word → Bool
is_dangerous a = same_word a alias_word || same_word a unalias_word || same_word a exit_word

-- The command `alias`, by the words after it: print all, print one, or define.
unfoldable pub alias_command : List Word → Shell → Result Reply
unfolding print_found replied list_from
alias_command [] s = listing (list_from s.fresh s (s.nodes sentinel).next)
alias_command (a ∷ []) s = print_found s (check_alias s a)
alias_command (a ∷ w ∷ path) s =
    if is_dangerous a then ok dangerous s else replied changed (define_alias a (w ∷ path) s)

-- The command `unalias`, by the words after it.
unfoldable pub unalias_command : List Word → Shell → Result Reply
unfolding replied
unalias_command (a ∷ []) s = replied changed (remove_alias a s)
unalias_command [] s = ok unalias_parts s
unalias_command (a ∷ b ∷ rest) s = ok unalias_parts s

-- The child: an alias is looked up first, and its redirection is passed over.
unfoldable pub launch_redirected : List Word → Redirection → Reply
launch_redirected args none_asked = launch (plain args)
launch_redirected args misformatted = bad_redirect
launch_redirected args (to_file o before) = launch (redirected o before)

unfoldable pub launch_found : Shell → List Word → Redirection → Option (Option ℕ) → Result Reply
unfolding launch_redirected
launch_found s args misformatted found = ok bad_redirect s
launch_found s args r none = out_of_fuel
launch_found s args r (some none) = ok (launch_redirected args r) s
launch_found s args r (some (some i)) = ok (launch (alias_path (s.nodes i).path)) s

-- A line that is not empty, by its words.
unfoldable pub run_words : Word → List Word → Shell → Result Reply
unfolding launch_found
run_words line [] s = ok idle s
run_words line (c ∷ args) s =
    if same_word c alias_word
    then alias_command args s
    else if same_word c unalias_word
    then unalias_command args s
    else launch_found s (c ∷ args) (redirect line) (check_alias s c)

-- One line. Words beyond the array `args`, its closing null pointer included, are written outside
-- of it.
unfoldable pub run_line : Word → Shell → Result Reply
unfolding run_words
run_line line s =
    if same_word line exit_line
    then ok stop s
    else if leb max_line_cmds (length (words is_blank line))
    then fault
    else run_words line (words is_blank line) s

abbrev pub add_reply : Reply → Result (List Reply) → Result (List Reply)
add_reply r (ok rs s) = ok (r ∷ rs) s
add_reply r fault = fault
add_reply r out_of_fuel = out_of_fuel

-- After `exit` the rest of the file is not read.
abbrev pub after_line : Result Reply → (Shell → Result (List Reply)) → Result (List Reply)
after_line (ok stop s) rest = ok (stop ∷ []) s
after_line (ok r s) rest = add_reply r (rest s)
after_line fault rest = fault
after_line out_of_fuel rest = out_of_fuel

-- The lines of a file, up to `exit`, with the replies in order. Each line is written to the
-- standard output before it is executed, `exit` too.
unfoldable pub run_lines : List Word → Shell → Result (List Reply)
run_lines [] s = ok [] s
run_lines (line ∷ lines) s =
    add_reply (echoed line) (after_line (run_line line s) (run_lines lines))
