-- ===== src/Shell/Alias/Lookup.antt =====
-- The lookups of names in the list of aliases of p3/mysh.c without one of its nodes.
use cs537_spring.Prelude.{
  ◌≤◌, ℕ, ◌<◌, ◌≡◌, refl, sym, ap, ◌∙◌, subst, arith, Bool, true, false, Bool-cases, inl, inr,
  Option, none, some, List, ◌∷◌, ◌++◌, All, length-append, if◌then◌else◌,
}
use cs537_spring.Shell.Word.{Word, same_word, eq_of_same}
use cs537_spring.Shell.Alias.{Node, Shell, sentinel}
use cs537_spring.Shell.Alias.Chain.{
  Chain, last_of, NamesApart-congr, IsAliases, lookup, or_else, lookup-congr, All-pointwise,
  All-weaken,
}
use cs537_spring.Shell.Alias.Split.{
  All-drop, Distinct-drop, NamesApart-drop, NamesApart-after, lookup-append, lookup-unlike,
}
use cs537_spring.Shell.Alias.Paths.{path_at, node_path, path_of}

-- What `unalias` brings about.
pub record Removed (alias : Word) (s : Shell) (xs : List ℕ) (s' : Shell) : Type 0 where
  pub nodes : List ℕ
  pub list : IsAliases s' nodes
  pub fresh : s'.fresh ≡ s.fresh
  pub unused : (x : ℕ) → s.fresh ≤ x → (s'.nodes x).next ≡ (s.nodes x).next
  pub paths :
      (b : Word)
      → path_of s'.nodes nodes b ≡ (if same_word alias b then none else path_of s.nodes xs b)

-- The parts of the list around the node `d`, and what the writes of `unalias` leave alone.
pub record Cut (s s' : Shell) (before : List ℕ) (d : ℕ) (after : List ℕ) : Type 0 where
  pub chain : Chain s'.nodes sentinel (before ++ after)
  pub tail : s'.tail ≡ last_of sentinel (before ++ after)
  pub fresh : s'.fresh ≡ s.fresh
  pub alias : (x : ℕ) → (s'.nodes x).alias ≡ (s.nodes x).alias
  pub path : (x : ℕ) → node_path (s'.nodes x) ≡ node_path (s.nodes x)
  pub unused : (x : ℕ) → s.fresh ≤ x → (s'.nodes x).next ≡ (s.nodes x).next

pub path_at-congr :
    (f g : ℕ → Node) (o : Option ℕ)
    → ((x : ℕ) → node_path (g x) ≡ node_path (f x))
    → path_at g o ≡ path_at f o
path_at-congr f g none h = refl
path_at-congr f g (some x) h = ap some (h x)

pub same_word_sym : (a b : Word) → same_word a b ≡ false → same_word b a ≡ false
same_word_sym a b h = elim (Bool-cases (same_word b a)) [
  | inr n ↦ n
  | inl y ↦
      subst (λ z. same_word z a ≡ false) (sym (eq_of_same b a y))
        (subst (λ z. same_word a z ≡ false) (eq_of_same b a y) h)
]

-- Without the node `d`, a lookup of another name gives what it gave.
pub lookup-other :
    (f : ℕ → Node) (b : Word) (xs : List ℕ) (d : ℕ) (ys : List ℕ)
    → same_word (f d).alias b ≡ false
    → lookup f b (xs ++ d ∷ ys) ≡ lookup f b (xs ++ ys)
lookup-other f b xs d ys h =
    lookup-append f b xs (d ∷ ys)
    ∙ ap (λ t. or_else (lookup f b xs) (if t then some d else lookup f b ys)) h
    ∙ sym (lookup-append f b xs ys)

module _ (alias : Word) (s : Shell) (before : List ℕ) (d : ℕ) (after : List ℕ)
    (i : IsAliases s (before ++ d ∷ after)) (named : (s.nodes d).alias ≡ alias)
    (unlike : All (λ x. same_word (s.nodes x).alias alias ≡ false) before) where
  pub gone : lookup s.nodes alias (before ++ after) ≡ none
  gone =
      lookup-append s.nodes alias before after
      ∙ ap (λ o. or_else o (lookup s.nodes alias after)) (lookup-unlike s.nodes alias before unlike)
      ∙ lookup-unlike s.nodes alias after (
          All-weaken _ _ after
            (λ y h.
              same_word_sym alias (s.nodes y).alias
                (subst (λ z. same_word z (s.nodes y).alias ≡ false) named h))
            (NamesApart-after s.nodes before d after i.names))

  pub Removed-Cut :
      (s' : Shell) → Cut s s' before d after → Removed alias s (before ++ d ∷ after) s'
  Removed-Cut s' c = record {
    nodes = before ++ after;
    list = record {
      chain = c.chain;
      tail = c.tail;
      distinct = Distinct-drop (sentinel ∷ before) d after i.distinct;
      bounded =
          subst (λ n. All (λ x. x < n) (sentinel ∷ (before ++ after))) (sym c.fresh)
            (All-drop (λ x. x < s.fresh) (sentinel ∷ before) d after i.bounded);
      names =
          NamesApart-congr s.nodes s'.nodes (before ++ after)
            (All-pointwise _ (before ++ after) c.alias)
            (NamesApart-drop s.nodes before d after i.names);
      room =
          omega
            (arith, c.fresh, i.room, length-append before after, length-append before (d ∷ after));
    };
    fresh = c.fresh;
    unused = c.unused;
    paths = λ b.
        ap (path_at s'.nodes) (
          lookup-congr s.nodes s'.nodes b (before ++ after)
            (All-pointwise _ (before ++ after) c.alias))
        ∙ path_at-congr s.nodes s'.nodes (lookup s.nodes b (before ++ after)) c.path
        ∙ ap (path_at s.nodes) (found b)
        ∙ by_name b (same_word alias b);
  }
    where
      found :
          (b : Word)
          → lookup s.nodes b (before ++ after)
            ≡ (if same_word alias b then none else lookup s.nodes b (before ++ d ∷ after))
      found b = elim (Bool-cases (same_word alias b)) [
        | inl h ↦
            rw h
              (subst (λ z. lookup s.nodes z (before ++ after) ≡ none) (eq_of_same alias b h) gone)
        | inr h ↦ rw h (
            sym (
              lookup-other s.nodes b before d after
                (subst (λ z. same_word z b ≡ false) (sym named) h)))
      ]

      by_name :
          (b : Word) (t : Bool)
          → path_at s.nodes (if t then none else lookup s.nodes b (before ++ d ∷ after))
            ≡ (if t then none else path_of s.nodes (before ++ d ∷ after) b)
      by_name b true = refl
      by_name b false = refl
