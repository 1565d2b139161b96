-- ===== src/Shell/Alias/Paths.antt =====
-- The path that a node of the list of aliases of p3/mysh.c stands for.
use cs537_spring.Prelude.{
  update, ℕ, zero, suc, ◌<◌, ◌≡◌, refl, ap, ◌∙◌, arith, Option, none, some, List, [], ◌∷◌, ◌++◌,
  length, get_elem?, map,
}
use native.Mathlib.Decide.{ℕ_discrete}
use cs537_spring.Shell.Word.{Word}
use cs537_spring.Shell.Alias.{Node, add_node_path}
use cs537_spring.Shell.Alias.Chain.{lookup}

-- The words of a node's path that its counter covers.
abbrev pub entries : ℕ → (ℕ → Option Word) → List (Option Word)
entries zero path = []
entries (suc n) path = entries n path ++ (path n ∷ [])

abbrev pub node_path : Node → List (Option Word)
node_path c = entries c.num c.path

abbrev pub path_at : (ℕ → Node) → Option ℕ → Option (List (Option Word))
path_at f none = none
path_at f (some x) = some (node_path (f x))

-- The path that a name stands for, if it is an alias.
abbrev pub path_of : (ℕ → Node) → List ℕ → Word → Option (List (Option Word))
path_of f xs b = path_at f (lookup f b xs)

pub entries-congr :
    (n : ℕ) (f g : ℕ → Option Word) → ((i : ℕ) → i < n → f i ≡ g i) → entries n f ≡ entries n g
entries-congr zero f g h = refl
entries-congr (suc n) f g h =
    ap (λ xs. xs ++ (f n ∷ [])) (entries-congr n f g λ i l. h i (omega arith))
    ∙ ap (λ x. entries n g ++ (x ∷ [])) (h n (omega arith))

-- The array after the first `n` entries of `path` have been written to it.
abbrev pub written : ℕ → (ℕ → Option Word) → (ℕ → Option Word) → ℕ → Option Word
written zero path old = old
written (suc n) path old = update (written n path old) n (path n)

add_node_path-written :
    (n : ℕ) (path old : ℕ → Option Word)
    → ((i : ℕ) → i < n → (w : Word) × (path i ≡ some w))
    → add_node_path n path old ≡ some (written n path old)
unfolding add_node_path
add_node_path-written zero path old h = refl
add_node_path-written (suc n) path old h =
    let (w, e) = h n (omega arith) in
    rw (add_node_path-written n path old λ i l. h i (omega arith), e) refl

get_elem?-word :
    (path : List Word) (i : ℕ) → i < length path → (w : Word) × (get_elem? path i ≡ some w)
get_elem?-word [] i l = absurd (omega arith)
get_elem?-word (w ∷ path) zero l = (w, refl)
get_elem?-word (w ∷ path) (suc i) l = get_elem?-word path i (omega arith)

-- The words of a command are not null, so the path is copied.
pub add_node_path-words :
    (path : List Word) (old : ℕ → Option Word)
    → add_node_path (length path) (get_elem? path) old
      ≡ some (written (length path) (get_elem? path) old)
add_node_path-words path old =
    add_node_path-written (length path) (get_elem? path) old (get_elem?-word path)

written_at : (n i : ℕ) (path old : ℕ → Option Word) → i < n → written n path old i ≡ path i
written_at zero i path old l = absurd (omega arith)
written_at (suc n) i path old l = elim (ℕ_discrete n i) [
  | yes e ↦ ground arith
  | no ne ↦ ground (arith, written_at n i path old (omega arith))
]

pub entries-snoc :
    (n : ℕ) (f : ℕ → Option Word) → entries (suc n) f ≡ f 0 ∷ entries n (λ i. f (suc i))
entries-snoc zero f = refl
entries-snoc (suc n) f = ap (λ xs. xs ++ (f (suc n) ∷ [])) (entries-snoc n f)

pub entries-get_elem? : (path : List Word) → entries (length path) (get_elem? path) ≡ map some path
entries-get_elem? [] = refl
entries-get_elem? (w ∷ path) =
    entries-snoc (length path) (get_elem? (w ∷ path))
    ∙ ap (λ xs. some w ∷ xs) (entries-get_elem? path)

-- Whatever was in the array, the path of a node that has been written is the new one.
pub entries-written :
    (path : List Word) (old : ℕ → Option Word)
    → entries (length path) (written (length path) (get_elem? path) old) ≡ map some path
entries-written path old =
    entries-congr (length path) _ _ (λ i l. written_at (length path) i (get_elem? path) old l)
    ∙ entries-get_elem? path
