-- ===== src/Shell/Alias/Remove.antt =====
-- The command `unalias` of p3/mysh.c on the list of aliases.
use cs537_spring.Shell.Alias.Lookup.{Removed, Cut, Removed-Cut}
use cs537_spring.Prelude.{
  ◌≤◌, ℕ, ◌<◌, ◌≡◌, ◌≢◌, refl, sym, ap, ◌∙◌, subst, arith, Bool-cases, inl, inr, none, some,
  Option-cases, List, [], ◌∷◌, ◌++◌, All, update,
}
use cs537_spring.Shell.Word.{Word, same_word, eq_of_same}
use cs537_spring.Shell.Alias.{
  Node, Shell, sentinel, remove_found, remove_node, remove_last, remove_inner, remove_alias,
  Returns, Returns-mono,
}
use cs537_spring.Shell.Alias.Chain.{
  Chain, last_of, Distinct, IsAliases, lookup, check_alias-lookup, lookup-some, last_of-snoc,
  last_of-All, All-pointwise, All-weaken,
}
use cs537_spring.Shell.Alias.Split.{
  All-append, lookup-Split, Distinct-append, last_of-append, Chain-at, Chain-on, Chain-join,
}
use cs537_spring.Shell.Alias.Paths.{path_at, node_path}

-- The last node leaves the list.
Cut-last :
    (s : Shell) (before : List ℕ) (d : ℕ)
    → IsAliases s (before ++ d ∷ [])
    → Returns (λ _ s'. Cut s s' before d []) (remove_last s (s.nodes s.tail).prev)
unfolding remove_last
Cut-last s before d i = rw (at_tail ∙ (Chain-at s.nodes sentinel before d [] i.chain).0) (record {
  chain =
      Chain-join s.nodes g sentinel before (d ∷ []) [] i.chain
        (Distinct-append (sentinel ∷ before) (d ∷ []) i.distinct).0
        (All-pointwise _ before λ y. ground arith) (λ y n. ground arith) (ground arith);
  tail = sym (last_of-append sentinel before []);
  fresh = refl;
  alias = λ x. ground arith;
  path = λ x. ap node_path (same x);
  unused = λ x l. unused_same x (below x l);
})
  where
    q : ℕ
    q = last_of sentinel before

    g : ℕ → Node
    g = update s.nodes q (record (s.nodes q) { next = none })

    at_tail : (s.nodes s.tail).prev ≡ (s.nodes d).prev
    at_tail = ap (λ t. (s.nodes t).prev) (i.tail ∙ last_of-snoc sentinel d before)

    below : (x : ℕ) → s.fresh ≤ x → q ≢ x
    below x l e = omega (
      arith,
      last_of-All (λ y. y < s.fresh) sentinel before
          (All-append (λ y. y < s.fresh) (sentinel ∷ before) (d ∷ []) i.bounded).0,
      e,
    )

    unused_same : (x : ℕ) → q ≢ x → (g x).next ≡ (s.nodes x).next
    unused_same x n = ground arith

    same : (x : ℕ) → g x ≡ record (s.nodes x) { next = (g x).next }
    same x = ground arith

-- A node before another leaves the list.
Cut-inner :
    (s : Shell) (before : List ℕ) (d n : ℕ) (ns : List ℕ)
    → IsAliases s (before ++ d ∷ n ∷ ns)
    → Returns (λ _ s'. Cut s s' before d (n ∷ ns)) (remove_inner s (s.nodes d).prev n)
unfolding remove_inner
Cut-inner s before d n ns i = rw around.0 (record {
  chain =
      Chain-join s.nodes g sentinel before (d ∷ n ∷ ns) (n ∷ ns) i.chain parts.0
        (All-weaken _ _ before (λ y h. prev_same y h.1.0) parts.2.1) (λ y ne. ground arith)
        (
          ground (arith, apart.1.0),
          ground arith,
          Chain-on s.nodes g n ns (All-weaken _ _ (n ∷ ns) (λ y (h : q ≢ y). ground arith) apart.1)
              (All-weaken _ _ ns (λ y (h : n ≢ y). prev_same y (λ e. h (sym e))) parts.1.1.0)
              around.1.2,
        );
  tail =
      i.tail
      ∙ last_of-append sentinel before (d ∷ n ∷ ns)
      ∙ sym (last_of-append sentinel before (n ∷ ns));
  fresh = refl;
  alias = λ x. ground arith;
  path = λ x. ap node_path (same x);
  unused = λ x l. unused_same x (below x l);
})
  where
    q : ℕ
    q = last_of sentinel before

    f : ℕ → Node
    f = update s.nodes q (record (s.nodes q) { next = some n })

    g : ℕ → Node
    g = update f n (record (f n) { prev = some q })

    around : ((s.nodes d).prev ≡ some q) × Chain s.nodes d (n ∷ ns)
    around = Chain-at s.nodes sentinel before d (n ∷ ns) i.chain

    parts :
        Distinct (sentinel ∷ before)
        × Distinct (d ∷ n ∷ ns)
        × All (λ x. All (λ y. x ≢ y) (d ∷ n ∷ ns)) (sentinel ∷ before)
    parts = Distinct-append (sentinel ∷ before) (d ∷ n ∷ ns) i.distinct

    apart : All (λ y. q ≢ y) (d ∷ n ∷ ns)
    apart = last_of-All (λ x. All (λ y. x ≢ y) (d ∷ n ∷ ns)) sentinel before parts.2

    prev_same : (y : ℕ) → y ≢ n → (g y).prev ≡ (s.nodes y).prev
    prev_same y ne = ground arith

    below : (x : ℕ) → s.fresh ≤ x → q ≢ x
    below x l e = omega (
      arith,
      last_of-All (λ y. y < s.fresh) sentinel before
          (All-append (λ y. y < s.fresh) (sentinel ∷ before) (d ∷ n ∷ ns) i.bounded).0,
      e,
    )

    unused_same : (x : ℕ) → q ≢ x → (g x).next ≡ (s.nodes x).next
    unused_same x n = ground arith

    same : (x : ℕ) → g x ≡ record (s.nodes x) { next = (g x).next; prev = (g x).prev }
    same x = ground arith

Cut-node :
    (s : Shell) (before : List ℕ) (d : ℕ) (after : List ℕ)
    → IsAliases s (before ++ d ∷ after)
    → Returns (λ _ s'. Cut s s' before d after) (remove_node s d (s.nodes d).next)
unfolding remove_node
Cut-node s before d [] i =
    rw (Chain-at s.nodes sentinel before d [] i.chain).1 (Cut-last s before d i)
Cut-node s before d (n ∷ ns) i =
    rw (Chain-at s.nodes sentinel before d (n ∷ ns) i.chain).1.0 (Cut-inner s before d n ns i)

Removed-absent :
    (alias : Word) (s : Shell) (xs : List ℕ)
    → IsAliases s xs
    → lookup s.nodes alias xs ≡ none
    → Removed alias s xs s
Removed-absent alias s xs i e = record {
  nodes = xs;
  list = i;
  fresh = refl;
  unused = λ x l. refl;
  paths = λ b. elim (Bool-cases (same_word alias b)) [
    | inl h ↦
        rw h
          (ap (path_at s.nodes) (subst (λ z. lookup s.nodes z xs ≡ none) (eq_of_same alias b h) e))
    | inr h ↦ rw h refl
  ];
}

-- In a well-formed list, `unalias` of a name ends without reading a null pointer, and the list is
-- well-formed again. The name is no alias any more, and every other name stands for what it did.
pub remove_alias-Removed :
    (alias : Word) (s : Shell) (xs : List ℕ)
    → IsAliases s xs
    → Returns (λ _ s'. Removed alias s xs s') (remove_alias alias s)
unfolding remove_alias remove_found
remove_alias-Removed alias s xs i =
    rw (check_alias-lookup s xs alias i) (elim (Option-cases (lookup s.nodes alias xs)) [
      | inl e ↦ rw e (Removed-absent alias s xs i e)
      | inr (d, e) ↦
          let p = lookup-Split s.nodes alias xs d e in
          let named = eq_of_same (s.nodes d).alias alias (lookup-some s.nodes alias xs d e) in
          let j : IsAliases s (p.before ++ d ∷ p.after) = subst (IsAliases s) p.whole i in
          rw e (
            Returns-mono _ _ (remove_node s d (s.nodes d).next) (Cut-node s p.before d p.after j)
              λ _ s' c.
                subst (λ zs. Removed alias s zs s') (sym p.whole)
                  (Removed-Cut alias s p.before d p.after j named p.unlike s' c))
    ])
