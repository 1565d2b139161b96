-- ===== src/Shell/Alias.antt =====
-- The doubly linked list of aliases: `checkAlias`, `addNodePath`, and what the commands `alias` and
-- `unalias` do to the list in `batch_mode`. A node is an index of the store; `fresh` is the next
-- index that `malloc` gives, with whatever is there. A path entry `none` was never written.
pub mod Chain
pub mod Paths
pub mod Define
pub mod Split
pub mod Lookup
pub mod Remove
use cs537_spring.Prelude.{
  ℕ, zero, suc, ◌+◌, Bool, true, false, Option, none, some, List, [], ◌∷◌, get_elem?, length,
  update, ◌==◌, if◌then◌else◌,
}
use cs537_spring.Shell.Word.{Word, same_word}

pub record Node : Type 0 where
  pub alias : Word
  pub path : ℕ → Option Word
  pub num : ℕ
  pub next : Option ℕ
  pub prev : Option ℕ

-- The two nodes that `batch_mode` starts with are 0, `head`, and 1, the first `tail`, which stays
-- `head->next`: the aliases are behind it.
pub record Shell : Type 0 where
  pub nodes : ℕ → Node
  pub fresh : ℕ
  pub tail : ℕ

abbrev pub sentinel : ℕ
sentinel = 1

-- A result, a read through a null pointer, or a search that has not ended.
pub data Result (A : Type 0) : Type 0 where
  ok : A → Shell → Result A
  fault : Result A
  out_of_fuel : Result A

-- `checkAlias`, from the node `temp` on.
unfoldable pub search_from : ℕ → (ℕ → Node) → Word → Option ℕ → Option (Option ℕ)
search_from zero f alias temp = none
search_from (suc n) f alias none = some none
search_from (suc n) f alias (some i) =
    let rest = search_from n f alias (f i).next in
    if same_word (f i).alias alias then some (some i) else rest

-- `checkAlias(head->next, alias)`: as many rounds as there are nodes.
unfoldable pub check_alias : Shell → Word → Option (Option ℕ)
check_alias s alias = search_from s.fresh s.nodes alias (s.nodes sentinel).next

-- `head->path[i] = strdup(path[i])`, which reads through a null pointer where there is no word.
abbrev pub dup_word : ℕ → Option Word → Option (ℕ → Option Word) → Option (ℕ → Option Word)
dup_word i (some w) (some copied) = some (update copied i (some w))
dup_word i _ _ = none

-- `addNodePath`: the first `num` entries are written. There is no result where one is null.
unfoldable pub add_node_path : ℕ → (ℕ → Option Word) → (ℕ → Option Word) → Option (ℕ → Option Word)
add_node_path zero path old = some old
add_node_path (suc n) path old = dup_word n (path n) (add_node_path n path old)

abbrev pub if_written :
    Option (ℕ → Option Word) → ((ℕ → Option Word) → Result (Unit {0})) → Result (Unit {0})
if_written none rest = fault
if_written (some path) rest = rest path

-- A node is given `num` words of a path.
abbrev pub with_path : ℕ → (ℕ → Option Word) → ℕ → Shell → Shell
with_path num path d s = record s {
  nodes = update s.nodes d (record (s.nodes d) { path = path; num = num });
}

-- An alias that exists is given a new path.
abbrev pub replace_path : List Word → ℕ → Shell → Result (Unit {0})
replace_path path d s =
    if_written (add_node_path (length path) (get_elem? path) (s.nodes d).path)
      λ written. ok tt (with_path (length path) written d s)

-- A node behind the last one.
abbrev pub with_node : Word → ℕ → (ℕ → Option Word) → Shell → Shell
with_node alias num path s =
    let new : Node = record {
      alias = alias;
      path = path;
      num = num;
      next = none;
      prev = some s.tail;
    } in
    let f = update s.nodes s.fresh new in
    record s {
      nodes = update f s.tail (record (f s.tail) { next = some s.fresh });
      fresh = s.fresh + 1;
      tail = s.fresh;
    }

-- A new alias.
abbrev pub append_node : Word → List Word → Shell → Result (Unit {0})
append_node alias path s =
    if_written (add_node_path (length path) (get_elem? path) (s.nodes s.fresh).path)
      λ written. ok tt (with_node alias (length path) written s)

unfoldable pub define_found : Word → List Word → Shell → Option (Option ℕ) → Result (Unit {0})
define_found alias path s none = out_of_fuel
define_found alias path s (some none) = append_node alias path s
define_found alias path s (some (some d)) = replace_path path d s

-- `alias` with a name and a path.
unfoldable pub define_alias : Word → List Word → Shell → Result (Unit {0})
unfolding define_found
define_alias alias path s = define_found alias path s (check_alias s alias)

-- The node `d` leaves the list, by what its `next` and `prev` hold.
unfoldable pub remove_last : Shell → Option ℕ → Result (Unit {0})
remove_last s none = fault
remove_last s (some p) =
    ok tt (record s { tail = p; nodes = update s.nodes p (record (s.nodes p) { next = none }) })

unfoldable pub remove_inner : Shell → Option ℕ → ℕ → Result (Unit {0})
remove_inner s none n = fault
remove_inner s (some p) n =
    let f = update s.nodes p (record (s.nodes p) { next = some n }) in
    ok tt (record s { nodes = update f n (record (f n) { prev = some p }) })

unfoldable pub remove_node : Shell → ℕ → Option ℕ → Result (Unit {0})
unfolding remove_last remove_inner
remove_node s d none = remove_last s (s.nodes s.tail).prev
remove_node s d (some n) = remove_inner s (s.nodes d).prev n

unfoldable pub remove_found : Shell → Option (Option ℕ) → Result (Unit {0})
unfolding remove_node
remove_found s none = out_of_fuel
remove_found s (some none) = ok tt s
remove_found s (some (some d)) = remove_node s d (s.nodes d).next

-- `unalias` with a name.
unfoldable pub remove_alias : Word → Shell → Result (Unit {0})
unfolding remove_found
remove_alias alias s = remove_found s (check_alias s alias)

-- Total correctness of a command.
abbrev pub Returns : {A : Type 0} → (A → Shell → Type 0) → Result A → Type 0
Returns P (ok a s) = P a s
Returns P fault = ⊥
Returns P out_of_fuel = ⊥

pub Returns-mono :
    (P Q : Unit {0} → Shell → Type 0) (r : Result (Unit {0}))
    → Returns P r
    → ((a : Unit {0}) (s : Shell) → P a s → Q a s)
    → Returns Q r
Returns-mono P Q (ok a s) h f = f a s h
Returns-mono P Q fault h f = absurd h
Returns-mono P Q out_of_fuel h f = absurd h
