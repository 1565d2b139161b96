-- ===== src/Shell/Alias/Split.antt =====
-- A list of aliases around one of its nodes, and without it.
use cs537_spring.Prelude.{
  ℕ, ◌≡◌, ◌≢◌, refl, ap, ◌∙◌, arith, false, Bool-cases, inl, inr, none, some, List, [], ◌∷◌, ◌++◌,
  All,
}
use cs537_spring.Shell.Word.{Word, same_word}
use cs537_spring.Shell.Alias.{Node}
use cs537_spring.Shell.Alias.Chain.{
  Chain, last_of, Distinct, NamesApart, lookup, or_else, last_of-ne,
}

-- Where a search that succeeds has ended.
pub record Split (f : ℕ → Node) (a : Word) (xs : List ℕ) (d : ℕ) : Type 0 where
  pub before : List ℕ
  pub after : List ℕ
  pub whole : xs ≡ before ++ d ∷ after
  pub unlike : All (λ x. same_word (f x).alias a ≡ false) before

pub lookup-Split :
    (f : ℕ → Node) (a : Word) (xs : List ℕ) (d : ℕ) → lookup f a xs ≡ some d → Split f a xs d
lookup-Split f a [] d e = absurd (none_some e)
  where
    none_some : none ≡ some d → ⊥
    none_some y = cc
lookup-Split f a (x ∷ xs) d e = elim (Bool-cases (same_word (f x).alias a)) [
  | inl b ↦
      let same : x ≡ d = ground arith in
      record { before = []; after = xs; whole = ap (λ z. z ∷ xs) same; unlike = tt }
  | inr b ↦
      let r = lookup-Split f a xs d (ground arith) in
      record {
        before = x ∷ r.before;
        after = r.after;
        whole = ap (λ zs. x ∷ zs) r.whole;
        unlike = (b, r.unlike);
      }
]

pub All-append : (P : ℕ → Type 0) (xs ys : List ℕ) → All P (xs ++ ys) → All P xs × All P ys
All-append P [] ys h = (tt, h)
All-append P (x ∷ xs) ys h = let r = All-append P xs ys h.1 in ((h.0, r.0), r.1)

pub All-drop :
    (P : ℕ → Type 0) (xs : List ℕ) (d : ℕ) (ys : List ℕ) → All P (xs ++ d ∷ ys) → All P (xs ++ ys)
All-drop P [] d ys h = h.1
All-drop P (x ∷ xs) d ys h = (h.0, All-drop P xs d ys h.1)

pub Distinct-drop :
    (xs : List ℕ) (d : ℕ) (ys : List ℕ) → Distinct (xs ++ d ∷ ys) → Distinct (xs ++ ys)
Distinct-drop [] d ys h = h.1
Distinct-drop (x ∷ xs) d ys h = (All-drop _ xs d ys h.0, Distinct-drop xs d ys h.1)

pub NamesApart-drop :
    (f : ℕ → Node) (xs : List ℕ) (d : ℕ) (ys : List ℕ)
    → NamesApart f (xs ++ d ∷ ys)
    → NamesApart f (xs ++ ys)
NamesApart-drop f [] d ys h = h.1
NamesApart-drop f (x ∷ xs) d ys h = (All-drop _ xs d ys h.0, NamesApart-drop f xs d ys h.1)

pub NamesApart-after :
    (f : ℕ → Node) (xs : List ℕ) (d : ℕ) (ys : List ℕ)
    → NamesApart f (xs ++ d ∷ ys)
    → All (λ y. same_word (f d).alias (f y).alias ≡ false) ys
NamesApart-after f [] d ys h = h.0
NamesApart-after f (x ∷ xs) d ys h = NamesApart-after f xs d ys h.1

-- Two parts of a list without repetition.
pub Distinct-append :
    (xs ys : List ℕ)
    → Distinct (xs ++ ys)
    → Distinct xs × Distinct ys × All (λ x. All (λ y. x ≢ y) ys) xs
Distinct-append [] ys h = (tt, h, tt)
Distinct-append (x ∷ xs) ys h =
    let r = Distinct-append xs ys h.1 in
    let a = All-append (λ y. x ≢ y) xs ys h.0 in ((a.0, r.0), r.1, (a.1, r.2))

pub last_of-append : (p : ℕ) (xs ys : List ℕ) → last_of p (xs ++ ys) ≡ last_of (last_of p xs) ys
last_of-append p [] ys = refl
last_of-append p (x ∷ xs) ys = last_of-append x xs ys

pub lookup-append :
    (f : ℕ → Node) (a : Word) (xs ys : List ℕ)
    → lookup f a (xs ++ ys) ≡ or_else (lookup f a xs) (lookup f a ys)
lookup-append f a [] ys = refl
lookup-append f a (x ∷ xs) ys = elim (Bool-cases (same_word (f x).alias a)) [
  | inl b ↦ rw b refl
  | inr b ↦ rw b (lookup-append f a xs ys)
]

pub lookup-unlike :
    (f : ℕ → Node) (a : Word) (xs : List ℕ)
    → All (λ x. same_word (f x).alias a ≡ false) xs
    → lookup f a xs ≡ none
lookup-unlike f a [] h = refl
lookup-unlike f a (x ∷ xs) h = rw h.0 (lookup-unlike f a xs h.1)

-- The links around a node of a chain.
pub Chain-at :
    (f : ℕ → Node) (p : ℕ) (xs : List ℕ) (d : ℕ) (ys : List ℕ)
    → Chain f p (xs ++ d ∷ ys)
    → ((f d).prev ≡ some (last_of p xs)) × Chain f d ys
Chain-at f p [] d ys c = (c.1, c.2)
Chain-at f p (x ∷ xs) d ys c = Chain-at f x xs d ys c.2

-- What a chain depends on, node by node.
pub Chain-on :
    (f g : ℕ → Node) (p : ℕ) (xs : List ℕ)
    → All (λ x. (g x).next ≡ (f x).next) (p ∷ xs)
    → All (λ x. (g x).prev ≡ (f x).prev) xs
    → Chain f p xs
    → Chain g p xs
Chain-on f g p [] n v c = n.0 ∙ c
Chain-on f g p (x ∷ xs) n v c = (n.0 ∙ c.0, v.0 ∙ c.1, Chain-on f g x xs n.1 v.1 c.2)

-- The first part of a chain, followed by another.
pub Chain-join :
    (f g : ℕ → Node) (p : ℕ) (xs ys zs : List ℕ)
    → Chain f p (xs ++ ys)
    → Distinct (p ∷ xs)
    → All (λ y. (g y).prev ≡ (f y).prev) xs
    → ((y : ℕ) → y ≢ last_of p xs → (g y).next ≡ (f y).next)
    → Chain g (last_of p xs) zs
    → Chain g p (xs ++ zs)
Chain-join f g p [] ys zs c d v t r = r
Chain-join f g p (x ∷ xs) ys zs c d v t r =
    (t p (last_of-ne p x xs d.0) ∙ c.0, v.0 ∙ c.1, Chain-join f g x xs ys zs c.2 d.1 v.1 t r)
