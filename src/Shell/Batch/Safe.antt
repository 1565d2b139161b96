-- ===== src/Shell/Batch/Safe.antt =====
-- Files of batch mode: sound states, and runs that end without a null pointer.
use cs537_spring.Prelude.{
  ℕ, ◌<◌, ◌≡◌, refl, sym, ◌∙◌, subst, Bool-cases, inl, inr, Option, some, none, map, List, [], ◌∷◌,
  All, length,
}
use cs537_spring.Shell.Word.{Word, same_word, words, is_blank}
use cs537_spring.Shell.Alias.{
  Shell, Result, ok, fault, out_of_fuel, define_alias, remove_alias, Returns-mono,
}
use cs537_spring.Shell.Alias.Chain.{IsAliases}
use cs537_spring.Shell.Alias.Define.{Defined, define_alias-Defined}
use cs537_spring.Shell.Alias.Remove.{remove_alias-Removed}
use cs537_spring.Shell.Alias.Lookup.{Removed}
use cs537_spring.Shell.Batch.{
  Reply, run_line, run_lines, after_line, add_reply, max_line_cmds, changed, stop, idle, dangerous,
  echoed, unalias_parts, bad_redirect, listed, launch,
}
use cs537_spring.Shell.Batch.Step.{Invariant, Readable, Safe, Safe-line, map-IsWord}

-- Some nodes are the aliases of the shell, and their paths can be read.
abbrev pub Sound : Shell → Type 0
Sound s = (xs : List ℕ) × IsAliases s xs × Readable s xs

some_inj : (p q : List (Option Word)) → some p ≡ some q → p ≡ q
some_inj p q e = cc

absent_path : (p : List (Option Word)) → none ≡ some p → ⊥
absent_path p e = cc

pub Readable-Defined :
    (a : Word) (path : List Word) (s : Shell) (xs : List ℕ) (s' : Shell)
    (d : Defined a path s xs s')
    → Readable s xs
    → Readable s' d.nodes
Readable-Defined a path s xs s' d r b p e = elim (Bool-cases (same_word a b)) [
  | inl t ↦
      subst (All _) (some_inj (map some path) p (sym (d.paths b ∙ rw t refl) ∙ e)) (map-IsWord path)
  | inr t ↦ r b p (sym (d.paths b ∙ rw t refl) ∙ e)
]

pub Readable-Removed :
    (a : Word) (s : Shell) (xs : List ℕ) (s' : Shell) (d : Removed a s xs s')
    → Readable s xs
    → Readable s' d.nodes
Readable-Removed a s xs s' d r b p e = elim (Bool-cases (same_word a b)) [
  | inl t ↦ absurd (absent_path p (sym (d.paths b ∙ rw t refl) ∙ e))
  | inr t ↦ r b p (sym (d.paths b ∙ rw t refl) ∙ e)
]

Sound-Invariant : Invariant Sound
Sound-Invariant = record {
  aliases = λ s h. h;
  define = λ a path s h.
      Returns-mono _ _ (define_alias a path s) (define_alias-Defined a path s h.0 h.1)
        λ _ s' d. (d.nodes, d.list, Readable-Defined a path s h.0 s' d h.2);
  remove = λ a s h.
      Returns-mono _ _ (remove_alias a s) (remove_alias-Removed a s h.0 h.1)
        λ _ s' d. (d.nodes, d.list, Readable-Removed a s h.0 s' d h.2);
}

pub Safe-add_reply :
    (I : Shell → Type 0) (r : Reply) (rs : Result (List Reply))
    → Safe I rs
    → Safe I (add_reply r rs)
Safe-add_reply I r (ok a s) h = h
Safe-add_reply I r fault h = absurd h
Safe-add_reply I r out_of_fuel h = absurd h

pub Safe-after :
    (I : Shell → Type 0) (r : Result Reply) (rest : Shell → Result (List Reply))
    → Safe I r
    → ((s : Shell) → I s → Safe I (rest s))
    → Safe I (after_line r rest)
Safe-after I (ok stop s) rest h f = h
Safe-after I (ok idle s) rest h f = Safe-add_reply I idle (rest s) (f s h)
Safe-after I (ok dangerous s) rest h f = Safe-add_reply I dangerous (rest s) (f s h)
Safe-after I (ok changed s) rest h f = Safe-add_reply I changed (rest s) (f s h)
Safe-after I (ok unalias_parts s) rest h f = Safe-add_reply I unalias_parts (rest s) (f s h)
Safe-after I (ok bad_redirect s) rest h f = Safe-add_reply I bad_redirect (rest s) (f s h)
Safe-after I (ok (echoed w) s) rest h f = Safe-add_reply I (echoed w) (rest s) (f s h)
Safe-after I (ok (listed items) s) rest h f = Safe-add_reply I (listed items) (rest s) (f s h)
Safe-after I (ok (launch l) s) rest h f = Safe-add_reply I (launch l) (rest s) (f s h)
Safe-after I fault rest h f = absurd h
Safe-after I out_of_fuel rest h f = absurd h

-- From a state with a well-formed list of aliases, in which every entry of a path up to its counter
-- has been written, a file in which each line has fewer than 100 words is run to its end or to its
-- `exit`. No line follows a null pointer, copies or prints a path entry that is null or was never
-- written, or writes outside of the array of words. Each search of the list ends. At the end the
-- list is well-formed, and the entries of the paths have been written.
pub run_lines-Safe :
    (lines : List Word) (s : Shell)
    → Sound s
    → All (λ line. length (words is_blank line) < max_line_cmds) lines
    → Safe Sound (run_lines lines s)
unfolding run_lines
run_lines-Safe [] s h l = h
run_lines-Safe (line ∷ lines) s h l =
    Safe-add_reply Sound (echoed line) (after_line (run_line line s) (run_lines lines)) (
      Safe-after Sound (run_line line s) (run_lines lines)
        (Safe-line Sound Sound-Invariant line s l.0 h) λ s' h'. run_lines-Safe lines s' h' l.1)
