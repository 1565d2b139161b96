-- ===== src/Shell/Interactive/Safe.antt =====
-- Lines typed in interactive mode: runs that end without a null pointer.
use cs537_spring.Prelude.{ℕ, ◌+◌, ◌≡◌, ◌≤◌, Option, none, some, update}
use cs537_spring.Shell.Word.{Word}
use cs537_spring.Shell.Alias.{Node, Shell}
use cs537_spring.Shell.Batch.Step.{Safe}
use cs537_spring.Shell.Batch.Safe.{Sound}

-- The memory that `malloc` has not given yet has null pointers where a node has its `next`.
abbrev pub UnusedNull : Shell → Type 0
UnusedNull s = (x : ℕ) → s.fresh ≤ x → (s.nodes x).next ≡ none

-- A sound state, with null pointers in the memory that is not used yet.
abbrev pub Clean : Shell → Type 0
Clean s = Sound s × UnusedNull s

-- The node with its `next` as an argument.
abbrev linked : Word → ℕ → (ℕ → Option Word) → Option ℕ → Shell → Shell
linked alias num path next s =
    let new : Node = record {
      alias = alias;
      path = path;
      num = num;
      next = next;
      prev = some s.tail;
    } in
    let f = update s.nodes s.fresh new in
    record s {
      nodes = update f s.tail (record (f s.tail) { next = some s.fresh });
      fresh = s.fresh + 1;
      tail = s.fresh;
    }
