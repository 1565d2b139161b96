-- ===== src/Shell/Alias/Chain.antt =====
-- When the nodes of the store form a list of aliases, and what a search finds in it.
use cs537_spring.Prelude.{
  ℕ, zero, suc, ◌+◌, ◌≤◌, ◌<◌, ◌≡◌, ◌≢◌, refl, ◌∙◌, subst, arith, Bool, true, false, Bool-cases,
  inl, inr, Option, none, some, List, [], ◌∷◌, ◌++◌, All, length, if◌then◌else◌,
}
use cs537_spring.Shell.Word.{Word, same_word}
use cs537_spring.Shell.Alias.{Node, Shell, sentinel, search_from, check_alias}

-- The nodes `xs` follow the node `p`, linked in both directions, and nothing follows them.
abbrev pub Chain : (ℕ → Node) → ℕ → List ℕ → Type 0
Chain f p [] = (f p).next ≡ none
Chain f p (x ∷ xs) = ((f p).next ≡ some x) × ((f x).prev ≡ some p) × Chain f x xs

abbrev pub last_of : ℕ → List ℕ → ℕ
last_of p [] = p
last_of p (x ∷ xs) = last_of x xs

abbrev pub Distinct : List ℕ → Type 0
Distinct [] = Unit
Distinct (x ∷ xs) = All (λ y. x ≢ y) xs × Distinct xs

-- No two nodes have the same alias.
abbrev pub NamesApart : (ℕ → Node) → List ℕ → Type 0
NamesApart f [] = Unit
NamesApart f (x ∷ xs) = All (λ y. same_word (f x).alias (f y).alias ≡ false) xs × NamesApart f xs

-- The aliases of the shell are the nodes `xs`, in this order.
pub record IsAliases (s : Shell) (xs : List ℕ) : Type 0 where
  pub chain : Chain s.nodes sentinel xs
  pub tail : s.tail ≡ last_of sentinel xs
  pub distinct : Distinct (sentinel ∷ xs)
  pub bounded : All (λ x. x < s.fresh) (sentinel ∷ xs)
  pub names : NamesApart s.nodes xs
  pub room : length xs + 2 ≤ s.fresh

-- The first node with an alias.
abbrev pub lookup : (ℕ → Node) → Word → List ℕ → Option ℕ
lookup f a [] = none
lookup f a (x ∷ xs) = if same_word (f x).alias a then some x else lookup f a xs

some_if :
    (b : Bool) (x : ℕ) (r : Option ℕ)
    → (if b then some (some x) else some r) ≡ some (if b then some x else r)
some_if true x r = refl
some_if false x r = refl

search_from-lookup :
    (n p : ℕ) (f : ℕ → Node) (a : Word) (xs : List ℕ)
    → Chain f p xs
    → length xs < n
    → search_from n f a (f p).next ≡ some (lookup f a xs)
unfolding search_from
search_from-lookup zero p f a xs c l = absurd (omega arith)
search_from-lookup (suc n) p f a [] c l = rw c refl
search_from-lookup (suc n) p f a (x ∷ xs) (e, v, c) l =
    rw (e, search_from-lookup n x f a xs c (omega arith))
      (some_if (same_word (f x).alias a) x (lookup f a xs))

-- `checkAlias` ends, and finds the first node with the alias.
pub check_alias-lookup :
    (s : Shell) (xs : List ℕ) (a : Word)
    → IsAliases s xs
    → check_alias s a ≡ some (lookup s.nodes a xs)
unfolding check_alias
check_alias-lookup s xs a i =
    search_from-lookup s.fresh sentinel s.nodes a xs i.chain (omega (arith, i.room))

pub lookup-some :
    (f : ℕ → Node) (a : Word) (xs : List ℕ) (x : ℕ)
    → lookup f a xs ≡ some x
    → same_word (f x).alias a ≡ true
lookup-some f a [] x e = cc
lookup-some f a (y ∷ ys) x e = elim (Bool-cases (same_word (f y).alias a)) [
  | inl h ↦ subst (λ z. same_word (f z).alias a ≡ true) (ground arith) h
  | inr h ↦ lookup-some f a ys x (ground arith)
]

-- What a search depends on.
pub lookup-congr :
    (f g : ℕ → Node) (a : Word) (xs : List ℕ)
    → All (λ x. (g x).alias ≡ (f x).alias) xs
    → lookup g a xs ≡ lookup f a xs
lookup-congr f g a [] h = refl
lookup-congr f g a (x ∷ xs) h = rw (h.0, lookup-congr f g a xs h.1) refl

-- What a chain depends on.
pub Chain-congr :
    (f g : ℕ → Node) (p : ℕ) (xs : List ℕ)
    → ((x : ℕ) → (g x).next ≡ (f x).next)
    → ((x : ℕ) → (g x).prev ≡ (f x).prev)
    → Chain f p xs
    → Chain g p xs
Chain-congr f g p [] n v c = n p ∙ c
Chain-congr f g p (x ∷ xs) n v (e, w, c) = (n p ∙ e, v x ∙ w, Chain-congr f g x xs n v c)

pub last_of-ne : (p x : ℕ) (xs : List ℕ) → All (λ y. p ≢ y) (x ∷ xs) → p ≢ last_of x xs
last_of-ne p x [] h = h.0
last_of-ne p x (y ∷ ys) h = last_of-ne p y ys h.1

-- A node behind the last one makes the chain longer by this node.
pub Chain-snoc :
    (f g : ℕ → Node) (p n : ℕ) (xs : List ℕ)
    → Chain f p xs
    → Distinct (p ∷ xs)
    → All (λ y. y ≢ n) (p ∷ xs)
    → ((y : ℕ) → y ≢ n → (g y).prev ≡ (f y).prev)
    → ((y : ℕ) → y ≢ n → y ≢ last_of p xs → (g y).next ≡ (f y).next)
    → (g (last_of p xs)).next ≡ some n
    → (g n).prev ≡ some (last_of p xs)
    → (g n).next ≡ none
    → Chain g p (xs ++ n ∷ [])
Chain-snoc f g p n [] c d a v t e w z = (e, w, z)
Chain-snoc f g p n (x ∷ xs) (e₁, w₁, c) d a v t e w z = (
  t p a.0 (last_of-ne p x xs d.0) ∙ e₁,
  v x a.1.0 ∙ w₁,
  Chain-snoc f g x n xs c d.1 a.1 v t e w z,
)

pub last_of-snoc : (p n : ℕ) (xs : List ℕ) → last_of p (xs ++ n ∷ []) ≡ n
last_of-snoc p n [] = refl
last_of-snoc p n (x ∷ xs) = last_of-snoc x n xs

pub All-snoc : (P : ℕ → Type 0) (xs : List ℕ) (n : ℕ) → All P xs → P n → All P (xs ++ n ∷ [])
All-snoc P [] n h p = (p, tt)
All-snoc P (x ∷ xs) n h p = (h.0, All-snoc P xs n h.1 p)

pub All-weaken : (P Q : ℕ → Type 0) (xs : List ℕ) → ((x : ℕ) → P x → Q x) → All P xs → All Q xs
All-weaken P Q [] f h = tt
All-weaken P Q (x ∷ xs) f h = (f x h.0, All-weaken P Q xs f h.1)

pub Distinct-snoc :
    (xs : List ℕ) (n : ℕ) → Distinct xs → All (λ y. y ≢ n) xs → Distinct (xs ++ n ∷ [])
Distinct-snoc [] n d a = (tt, tt)
Distinct-snoc (x ∷ xs) n d a = (All-snoc (λ y. x ≢ y) xs n d.0 a.0, Distinct-snoc xs n d.1 a.1)

pub All-pointwise : (P : ℕ → Type 0) (xs : List ℕ) → ((x : ℕ) → P x) → All P xs
All-pointwise P [] f = tt
All-pointwise P (x ∷ xs) f = (f x, All-pointwise P xs f)

pub last_of-All : (P : ℕ → Type 0) (p : ℕ) (xs : List ℕ) → All P (p ∷ xs) → P (last_of p xs)
last_of-All P p [] h = h.0
last_of-All P p (x ∷ xs) h = last_of-All P x xs h.1

pub lookup-All :
    (P : ℕ → Type 0) (f : ℕ → Node) (a : Word) (xs : List ℕ) (x : ℕ)
    → lookup f a xs ≡ some x
    → All P xs
    → P x
lookup-All P f a [] x e h = absurd (none_some e)
  where
    none_some : none ≡ some x → ⊥
    none_some y = cc
lookup-All P f a (y ∷ ys) x e h = elim (Bool-cases (same_word (f y).alias a)) [
  | inl b ↦ subst P (ground arith) h.0
  | inr b ↦ lookup-All P f a ys x (ground arith) h.1
]

-- A search in a list with one more node at its end.
abbrev pub or_else : Option ℕ → Option ℕ → Option ℕ
or_else none o = o
or_else (some x) o = some x

pub lookup-snoc :
    (f : ℕ → Node) (a : Word) (xs : List ℕ) (n : ℕ)
    → lookup f a (xs ++ n ∷ [])
      ≡ or_else (lookup f a xs) (if same_word (f n).alias a then some n else none)
lookup-snoc f a [] n = refl
lookup-snoc f a (x ∷ xs) n = elim (Bool-cases (same_word (f x).alias a)) [
  | inl b ↦ rw b refl
  | inr b ↦ rw b (lookup-snoc f a xs n)
]

pub lookup-none :
    (f : ℕ → Node) (a : Word) (xs : List ℕ)
    → lookup f a xs ≡ none
    → All (λ x. same_word (f x).alias a ≡ false) xs
lookup-none f a [] e = tt
lookup-none f a (x ∷ xs) e = elim (Bool-cases (same_word (f x).alias a)) [
  | inl b ↦ absurd (some_none (ground arith))
  | inr b ↦ (b, lookup-none f a xs (ground arith))
]
  where
    some_none : some x ≡ none → ⊥
    some_none y = cc

pub All-zip :
    (P Q R : ℕ → Type 0) (xs : List ℕ)
    → ((x : ℕ) → P x → Q x → R x)
    → All P xs
    → All Q xs
    → All R xs
All-zip P Q R [] f h k = tt
All-zip P Q R (x ∷ xs) f h k = (f x h.0 k.0, All-zip P Q R xs f h.1 k.1)

pub NamesApart-congr :
    (f g : ℕ → Node) (xs : List ℕ)
    → All (λ x. (g x).alias ≡ (f x).alias) xs
    → NamesApart f xs
    → NamesApart g xs
NamesApart-congr f g [] e h = tt
NamesApart-congr f g (x ∷ xs) e h = (
  All-zip _ _ _ xs
      (λ y (n : same_word (f x).alias (f y).alias ≡ false) (k : (g y).alias ≡ (f y).alias).
        rw (e.0, k) n)
      h.0 e.1,
  NamesApart-congr f g xs e.1 h.1,
)

pub NamesApart-snoc :
    (f : ℕ → Node) (xs : List ℕ) (n : ℕ)
    → NamesApart f xs
    → All (λ x. same_word (f x).alias (f n).alias ≡ false) xs
    → NamesApart f (xs ++ n ∷ [])
NamesApart-snoc f [] n h a = (tt, tt)
NamesApart-snoc f (x ∷ xs) n h a = (All-snoc _ xs n h.0 a.0, NamesApart-snoc f xs n h.1 a.1)
