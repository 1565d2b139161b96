-- ===== src/Shell/Batch/Step.antt =====
-- One line of batch mode keeps every invariant of the aliases that `alias` and `unalias` keep.
use cs537_spring.Prelude.{
  ◌∙◌, ℕ, zero, suc, ◌≡◌, ◌<◌, refl, arith, false, leb, Bool-cases, inl, inr, Option, none, some,
  List, [], ◌∷◌, ◌++◌, length, ap, All, map,
}
use cs537_spring.Shell.Word.{same_word_refl, Word, same_word, words, is_blank}
use cs537_spring.Shell.Alias.{
  Node, Shell, sentinel, Result, ok, fault, out_of_fuel, define_alias, remove_alias, Returns,
}
use cs537_spring.Shell.Alias.Chain.{
  Chain, IsAliases, NamesApart, lookup, check_alias-lookup, All-zip, All-weaken,
}
use cs537_spring.Shell.Alias.Paths.{node_path, path_at, path_of, entries}
use cs537_spring.Shell.Redirect.{Redirection, none_asked, misformatted, to_file, redirect}
use cs537_spring.Shell.Batch.{
  add_word, Reply, list_from, read_path, listing, print_found, replied, alias_command,
  unalias_command, launch_found, run_words, run_line, alias_word, unalias_word, exit_line,
  max_line_cmds, is_dangerous, changed,
}

-- Every entry of the path of an alias has been written, and is a word.
abbrev IsWord : Option Word → Type 0
IsWord o = (w : Word) × (o ≡ some w)

abbrev pub Readable : Shell → List ℕ → Type 0
Readable s xs =
    (b : Word) (path : List (Option Word)) → path_of s.nodes xs b ≡ some path → All IsWord path

-- What an invariant of the shell has to satisfy.
pub record Invariant (I : Shell → Type 0) : Type 0 where
  pub aliases : (s : Shell) → I s → (xs : List ℕ) × IsAliases s xs × Readable s xs
  pub define :
      (a : Word) (path : List Word) (s : Shell)
      → I s
      → Returns (λ _ s'. I s') (define_alias a path s)
  pub remove : (a : Word) (s : Shell) → I s → Returns (λ _ s'. I s') (remove_alias a s)

-- A run ends without a read through a null pointer, in a state with the invariant.
abbrev pub Safe : (Shell → Type 0) → {A : Type 0} → Result A → Type 0
Safe I r = Returns (λ _ s. I s) r

All-unsnoc :
    (P : Option Word → Type 0) (os : List (Option Word)) (o : Option Word)
    → All P (os ++ o ∷ [])
    → All P os × P o
All-unsnoc P [] o h = (tt, h.0)
All-unsnoc P (p ∷ os) o h = let (r, l) = All-unsnoc P os o h.1 in ((h.0, r), l)

pub map-IsWord : (path : List Word) → All IsWord (map some path)
map-IsWord [] = tt
map-IsWord (w ∷ path) = ((w, refl), map-IsWord path)

read_path-words :
    (n : ℕ) (path : ℕ → Option Word)
    → All IsWord (entries n path)
    → (ws : List Word) × (read_path n path ≡ some ws)
read_path-words zero path h = ([], refl)
read_path-words (suc n) path h =
    let (before, (w, e)) = All-unsnoc IsWord (entries n path) (path n) h in
    let (ws, r) = read_path-words n path before in
    (ws ++ w ∷ [], ap (λ o. add_word o (path n)) r ∙ ap (add_word (some ws)) e)

-- A node of the list is the one that its name stands for.
lookup-own :
    (f : ℕ → Node) (xs : List ℕ) → NamesApart f xs → All (λ x. lookup f (f x).alias xs ≡ some x) xs
lookup-own f [] h = tt
lookup-own f (y ∷ ys) (apart, h) = (
  rw (same_word_refl (f y).alias) refl,
  All-zip _ _ _ ys
      (λ x (a : same_word (f y).alias (f x).alias ≡ false) (l : lookup f (f x).alias ys ≡ some x).
        rw a l)
      apart (lookup-own f ys h),
)

Readable-nodes :
    (s : Shell) (xs : List ℕ)
    → IsAliases s xs
    → Readable s xs
    → All (λ x. All IsWord (node_path (s.nodes x))) xs
Readable-nodes s xs i r =
    All-weaken _ _ xs (λ x l. r (s.nodes x).alias (node_path (s.nodes x)) (ap (path_at s.nodes) l))
      (lookup-own s.nodes xs i.names)

list_from-ends :
    (n p : ℕ) (s : Shell) (xs : List ℕ)
    → Chain s.nodes p xs
    → length xs < n
    → All (λ x. All IsWord (node_path (s.nodes x))) xs
    → (items : List (Word × List Word)) × (list_from n s (s.nodes p).next ≡ ok items s)
unfolding list_from
list_from-ends zero p s xs c l h = absurd (omega arith)
list_from-ends (suc n) p s [] c l h = ([], rw c refl)
list_from-ends (suc n) p s (x ∷ xs) c l h =
    let (items, e) = list_from-ends n x s xs c.2 (omega arith) h.1 in
    let (ws, r) = read_path-words (s.nodes x).num (s.nodes x).path h.0 in
    (((s.nodes x).alias, ws) ∷ items, rw (c.0, e, r) refl)

module _ (I : Shell → Type 0) where
  Safe-replied : (r : Reply) (c : Result (Unit {0})) → Safe I c → Safe I (replied r c)
  unfolding replied
  Safe-replied r (ok a s) h = h
  Safe-replied r fault h = absurd h
  Safe-replied r out_of_fuel h = absurd h

  Safe-launch :
      (s : Shell) (args : List Word) (r : Redirection) (o : Option ℕ)
      → I s
      → Safe I (launch_found s args r (some o))
  unfolding launch_found
  Safe-launch s args misformatted o h = h
  Safe-launch s args none_asked none h = h
  Safe-launch s args none_asked (some x) h = h
  Safe-launch s args (to_file a b) none h = h
  Safe-launch s args (to_file a b) (some x) h = h

  Safe-found :
      (s : Shell) (o : Option ℕ)
      → ((x : ℕ) → o ≡ some x → All IsWord (node_path (s.nodes x)))
      → I s
      → Safe I (print_found s (some o))
  unfolding print_found
  Safe-found s none r h = h
  Safe-found s (some x) r h = rw (read_path-words (s.nodes x).num (s.nodes x).path (r x refl)).1 h

  Safe-listed :
      (s : Shell) (xs : List ℕ)
      → IsAliases s xs
      → Readable s xs
      → I s
      → Safe I (listing (list_from s.fresh s (s.nodes sentinel).next))
  Safe-listed s xs i r h =
      rw
        (list_from-ends s.fresh sentinel s xs i.chain (omega (arith, i.room))
          (Readable-nodes s xs i r)).1
        h

module _ (I : Shell → Type 0) (v : Invariant I) where
  Safe-alias : (args : List Word) (s : Shell) → I s → Safe I (alias_command args s)
  unfolding alias_command
  Safe-alias [] s h = let (xs, i, r) = v.aliases s h in Safe-listed I s xs i r h
  Safe-alias (a ∷ []) s h =
      let (xs, i, r) = v.aliases s h in
      rw (check_alias-lookup s xs a i) (
        Safe-found I s (lookup s.nodes a xs)
          (λ x e. r a (node_path (s.nodes x)) (ap (path_at s.nodes) e)) h)
  Safe-alias (a ∷ w ∷ path) s h = elim (Bool-cases (is_dangerous a)) [
    | inl d ↦ rw d h
    | inr d ↦
        rw d (Safe-replied I changed (define_alias a (w ∷ path) s) (v.define a (w ∷ path) s h))
  ]

  Safe-unalias : (args : List Word) (s : Shell) → I s → Safe I (unalias_command args s)
  unfolding unalias_command
  Safe-unalias [] s h = h
  Safe-unalias (a ∷ []) s h = Safe-replied I changed (remove_alias a s) (v.remove a s h)
  Safe-unalias (a ∷ b ∷ rest) s h = h

  Safe-words : (line : Word) (ws : List Word) (s : Shell) → I s → Safe I (run_words line ws s)
  unfolding run_words
  Safe-words line [] s h = h
  Safe-words line (c ∷ args) s h = elim (Bool-cases (same_word c alias_word)) [
    | inl e ↦ rw e (Safe-alias args s h)
    | inr e ↦ rw e (elim (Bool-cases (same_word c unalias_word)) [
      | inl u ↦ rw u (Safe-unalias args s h)
      | inr u ↦
          let (xs, i, _) = v.aliases s h in
          rw (u, check_alias-lookup s xs c i)
            (Safe-launch I s (c ∷ args) (redirect line) (lookup s.nodes c xs) h)
    ])
  ]

  pub Safe-line :
      (line : Word) (s : Shell)
      → length (words is_blank line) < max_line_cmds
      → I s
      → Safe I (run_line line s)
  unfolding run_line
  Safe-line line s l h = elim (Bool-cases (same_word line exit_line)) [
    | inl e ↦ rw e h
    | inr e ↦
        let fits : leb max_line_cmds (length (words is_blank line)) ≡ false = ground arith in
        rw (e, fits) (Safe-words line (words is_blank line) s h)
  ]
