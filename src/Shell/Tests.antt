-- ===== src/Shell/Tests.antt =====
-- A list of two aliases, and the theorems at it.
use cs537_spring.Prelude.{
  ◌≡◌, refl, arith, none, some, List, [], ◌∷◌, if◌then◌else◌, ◌==◌, ◌++◌, ◌<◌, All, length,
}
use cs537_spring.Shell.Word.{Word, same_word, words, split, is_blank}
use cs537_spring.Shell.Alias.{Node, Shell, define_alias, remove_alias, Returns}
use cs537_spring.Shell.Alias.Chain.{IsAliases}
use cs537_spring.Shell.Alias.Define.{Defined, define_alias-Defined}
use cs537_spring.Shell.Alias.Remove.{remove_alias-Removed}
use cs537_spring.Shell.Alias.Lookup.{Removed}
use cs537_spring.Shell.Redirect.{
  none_asked, misformatted, to_file, ByCounts, redirect, first_at, last_at, redirect_lem,
}
use cs537_spring.Shell.Batch.{alias_word, unalias_word, run_lines, max_line_cmds}
use cs537_spring.Shell.Batch.Step.{Safe}
use cs537_spring.Shell.Batch.Safe.{Sound, run_lines-Safe}

abbrev blank_node : Node
blank_node = record { alias = []; path = λ i. none; num = 0; next = none; prev = none }

-- The aliases "a" and "b" are the nodes 2 and 3.
abbrev shell : Shell
shell = record {
  nodes = λ i.
      if i == 1
      then record blank_node { next = some 2; prev = some 0 }
      else if i == 2
      then record blank_node {
        alias = 97 ∷ [];
        num = 1;
        path = λ j. some (47 ∷ []);
        next = some 3;
        prev = some 1;
      }
      else if i == 3
      then record blank_node { alias = 98 ∷ []; num = 1; path = λ j. some (46 ∷ []); prev = some 2 }
      else blank_node;
  fresh = 4;
  tail = 3;
}

shell-IsAliases : IsAliases shell (2 ∷ 3 ∷ [])
unfolding same_word
shell-IsAliases = record {
  chain = (refl, refl, (refl, refl, refl));
  tail = refl;
  distinct = (((λ e. omega arith), ((λ e. omega arith), tt)), (((λ e. omega arith), tt), (tt, tt)));
  bounded = (omega arith, (omega arith, (omega arith, tt)));
  names = ((refl, tt), (tt, tt));
  room = omega arith;
}

words_run : words is_blank (32 ∷ 97 ∷ 98 ∷ 9 ∷ 32 ∷ 99 ∷ 10 ∷ []) ≡ (97 ∷ 98 ∷ []) ∷ (99 ∷ []) ∷ []
unfolding words split
words_run = refl

define_alias-Defined_example :
    Returns
      (λ _ s'. Defined (98 ∷ []) ((47 ∷ []) ∷ (48 ∷ []) ∷ []) shell (2 ∷ 3 ∷ []) s')
      (define_alias (98 ∷ []) ((47 ∷ []) ∷ (48 ∷ []) ∷ []) shell)
define_alias-Defined_example =
    define_alias-Defined (98 ∷ []) ((47 ∷ []) ∷ (48 ∷ []) ∷ []) shell (2 ∷ 3 ∷ []) shell-IsAliases

remove_alias-Removed_example :
    Returns (λ _ s'. Removed (97 ∷ []) shell (2 ∷ 3 ∷ []) s') (remove_alias (97 ∷ []) shell)
remove_alias-Removed_example = remove_alias-Removed (97 ∷ []) shell (2 ∷ 3 ∷ []) shell-IsAliases

-- "ls -l > out" with its newline.
abbrev command : Word
command = 108 ∷ 115 ∷ 32 ∷ 45 ∷ 108 ∷ 32 ∷ []

abbrev output : Word
output = 32 ∷ 111 ∷ 117 ∷ 116 ∷ 10 ∷ []

redirect_run :
    redirect (command ++ 62 ∷ output)
    ≡ to_file (111 ∷ 117 ∷ 116 ∷ []) ((108 ∷ 115 ∷ []) ∷ (45 ∷ 108 ∷ []) ∷ [])
unfolding redirect first_at last_at words split
redirect_run = refl

redirect_lem_example :
    (redirect command ≡ none_asked)
    × ByCounts (words is_blank output) (words is_blank command) (redirect (command ++ 62 ∷ output))
    × (redirect (command ++ 62 ∷ (97 ∷ [] ++ 62 ∷ output)) ≡ misformatted)
redirect_lem_example =
    redirect_lem command (97 ∷ []) output (refl, (refl, (refl, (refl, (refl, (refl, tt))))))
      (refl, (refl, (refl, (refl, (refl, tt)))))

-- The state that batch mode starts with, and the lines "alias a b", "a" and "unalias a".
abbrev started : Shell
started = record {
  nodes = λ i.
      if i == 0
      then record blank_node { next = some 1 }
      else if i == 1
      then record blank_node { prev = some 0 }
      else blank_node;
  fresh = 2;
  tail = 1;
}

started-IsAliases : IsAliases started []
started-IsAliases = record {
  chain = refl;
  tail = refl;
  distinct = (tt, tt);
  bounded = (omega arith, tt);
  names = tt;
  room = omega arith;
}

abbrev lines : List Word
lines =
    (alias_word ++ 32 ∷ 97 ∷ 32 ∷ 98 ∷ 10 ∷ [])
    ∷ (97 ∷ 10 ∷ [])
    ∷ (unalias_word ++ 32 ∷ 97 ∷ 10 ∷ [])
    ∷ []

few_words : All (λ line. length (words is_blank line) < max_line_cmds) lines
unfolding words split
few_words = (omega arith, (omega arith, (omega arith, tt)))

run_lines-Safe_example : Safe Sound (run_lines lines started)
run_lines-Safe_example =
    run_lines-Safe lines started ([], started-IsAliases, λ b path e. cc) few_words
