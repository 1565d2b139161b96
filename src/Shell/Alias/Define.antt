-- ===== src/Shell/Alias/Define.antt =====
-- The command `alias` of p3/mysh.c, with a name and a path, on the list of aliases.
use cs537_spring.Shell.Alias.Paths.{
  node_path, path_at, path_of, entries-written, written, add_node_path-words,
}
use cs537_spring.Prelude.{
  ◌≤◌, ℕ, ◌+◌, ◌<◌, ◌≡◌, ◌≢◌, refl, sym, ap, ◌∙◌, ◌⊎◌, update_self, update-ne, subst, arith, Bool,
  true, false, Bool-cases, inl, inr, Option, none, some, Option-cases, List, [], ◌∷◌, ◌++◌, All,
  length, length-append, get_elem?, map, update, if◌then◌else◌,
}
use cs537_spring.Shell.Word.{Word, same_word, eq_of_same}
use cs537_spring.Shell.Alias.{
  Node, Shell, sentinel, with_path, with_node, define_found, define_alias, Returns,
}
use cs537_spring.Shell.Alias.Chain.{
  IsAliases, lookup, check_alias-lookup, lookup-some, lookup-congr, Chain-congr, Chain-snoc,
  last_of-snoc, All-snoc, All-weaken, Distinct-snoc, All-pointwise, last_of-All, lookup-All,
  or_else, lookup-snoc, lookup-none, All-zip, NamesApart-congr, NamesApart-snoc,
}

-- What `alias` brings about: the nodes stay in their order, with a new one at most, and the lookups
-- of other names give what they gave before.
pub record Defined (alias : Word) (path : List Word) (s : Shell) (xs : List ℕ) (s' : Shell)
    : Type 0 where
  pub nodes : List ℕ
  pub list : IsAliases s' nodes
  pub grown : s.fresh ≤ s'.fresh
  pub unused : (x : ℕ) → s'.fresh ≤ x → (s'.nodes x).next ≡ (s.nodes x).next
  pub order : (nodes ≡ xs) ⊎ (nodes ≡ xs ++ s.fresh ∷ [])
  pub paths :
      (b : Word)
      → path_of s'.nodes nodes b
        ≡ (if same_word alias b then some (map some path) else path_of s.nodes xs b)

-- The states after the path has been copied.
abbrev replaced : List Word → ℕ → Shell → Shell
replaced path d s =
    with_path (length path) (written (length path) (get_elem? path) (s.nodes d).path) d s

abbrev appended : Word → List Word → Shell → Shell
appended alias path s =
    with_node alias (length path) (written (length path) (get_elem? path) (s.nodes s.fresh).path) s

module _ (alias : Word) (path : List Word) (s : Shell) (xs : List ℕ) (i : IsAliases s xs) where
  Defined-replaced :
      (d : ℕ) → lookup s.nodes alias xs ≡ some d → Defined alias path s xs (replaced path d s)
  Defined-replaced d e = record {
    nodes = xs;
    list = record {
      chain =
          Chain-congr s.nodes (replaced path d s).nodes sentinel xs (λ x. ground arith)
            (λ x. ground arith) i.chain;
      tail = i.tail;
      distinct = i.distinct;
      bounded = i.bounded;
      names = NamesApart-congr s.nodes g xs (All-pointwise _ xs λ x. ground arith) i.names;
      room = i.room;
    };
    grown = omega arith;
    unused = λ x l. ground arith;
    order = inl refl;
    paths = λ b. elim (Bool-cases (same_word alias b)) [
      | inl h ↦ rw h (
          ap (path_at g)
            (same b ∙ subst (λ z. lookup s.nodes z xs ≡ some d) (eq_of_same alias b h) e)
          ∙ ap (λ c. some (node_path c)) (update_self s.nodes d _)
          ∙ ap some (entries-written path (s.nodes d).path))
      | inr h ↦ rw h (ap (path_at g) (same b) ∙ other b h (lookup s.nodes b xs) refl)
    ];
  }
    where
      g : ℕ → Node
      g = (replaced path d s).nodes

      same : (b : Word) → lookup g b xs ≡ lookup s.nodes b xs
      same b = lookup-congr s.nodes g b xs (All-pointwise _ xs λ x. ground arith)

      named : (s.nodes d).alias ≡ alias
      named = eq_of_same (s.nodes d).alias alias (lookup-some s.nodes alias xs d e)

      clash : (t : Bool) → t ≡ true → t ≡ false → ⊥
      clash t x y = cc

      other :
          (b : Word)
          → same_word alias b ≡ false
          → (o : Option ℕ) → lookup s.nodes b xs ≡ o
          → path_at g o ≡ path_at s.nodes o
      other b h none l = refl
      other b h (some x) l =
          ap (λ c. some (node_path c))
            (update-ne s.nodes d x _ λ q.
              let here : same_word (s.nodes d).alias b ≡ true =
                subst (λ z. same_word (s.nodes z).alias b ≡ true) (sym q)
                  (lookup-some s.nodes b xs x l) in
              let there : same_word alias b ≡ true = subst (λ z. same_word z b ≡ true) named here in
              clash (same_word alias b) there h)

  Defined-appended :
      lookup s.nodes alias xs ≡ none → Defined alias path s xs (appended alias path s)
  Defined-appended e = record {
    nodes = xs ++ n ∷ [];
    list = record {
      chain =
          Chain-snoc s.nodes g sentinel n xs i.chain i.distinct old
            (λ y ne. ap (λ c. c.prev) (kept y ne)) (λ y ne nt. ground arith)
            (subst (λ t. (g t).next ≡ some n) i.tail (ground arith))
            (ap (λ c. c.prev) new ∙ ap some i.tail) (ap (λ c. c.next) new);
      tail = sym (last_of-snoc sentinel n xs);
      distinct = Distinct-snoc (sentinel ∷ xs) n i.distinct old;
      bounded =
          All-snoc (λ x. x < n + 1) (sentinel ∷ xs) n
            (All-weaken _ _ (sentinel ∷ xs) (λ x l. omega arith) i.bounded) (omega arith);
      names = NamesApart-snoc g xs n (NamesApart-congr s.nodes g xs named i.names) (
          All-zip _ _ _ xs
            (λ x (k : (g x).alias ≡ (s.nodes x).alias)
                (h : same_word (s.nodes x).alias alias ≡ false).
              rw (k, ap (λ c. c.alias) new) h)
            named (lookup-none s.nodes alias xs e));
      room = omega (arith, length-append xs (n ∷ []), i.room);
    };
    grown = omega arith;
    unused = λ x l. unused_same x (omega arith) (λ e. omega (arith, below, e));
    order = inr refl;
    paths = λ b. elim (Bool-cases (same_word alias b)) [
      | inl h ↦ rw h (
          ap (path_at g)
            (found b h (subst (λ z. lookup s.nodes z xs ≡ none) (eq_of_same alias b h) e))
          ∙ ap (λ c. some (node_path c)) new
          ∙ ap some (entries-written path (s.nodes n).path))
      | inr h ↦ rw h (ap (path_at g) (passed b h) ∙ other b (lookup s.nodes b xs) refl)
    ];
  }
    where
      n : ℕ
      n = s.fresh

      g : ℕ → Node
      g = (appended alias path s).nodes

      below : s.tail < n
      below = omega (arith, last_of-All (λ x. x < n) sentinel xs i.bounded, i.tail)

      unused_same : (x : ℕ) → n ≢ x → s.tail ≢ x → (g x).next ≡ (s.nodes x).next
      unused_same x m t = ground arith

      apart : s.tail ≢ n
      apart q = omega (arith, last_of-All (λ x. x < n) sentinel xs i.bounded, i.tail, q)

      old : All (λ y. y ≢ n) (sentinel ∷ xs)
      old = All-weaken (λ x. x < n) _ (sentinel ∷ xs) (λ x l q. omega arith) i.bounded

      kept : (y : ℕ) → y ≢ n → g y ≡ record (s.nodes y) { next = (g y).next }
      kept y ne = ground arith

      made : Node
      made = record {
        alias = alias;
        path = written (length path) (get_elem? path) (s.nodes n).path;
        num = length path;
        next = none;
        prev = some s.tail;
      }

      new : g n ≡ made
      new =
          let f = update s.nodes n made in
          update-ne f s.tail n (record (f s.tail) { next = some n }) apart
          ∙ update_self s.nodes n made

      named : All (λ x. (g x).alias ≡ (s.nodes x).alias) xs
      named = All-weaken _ _ xs (λ x ne. ap (λ c. c.alias) (kept x ne)) old.1

      same : (b : Word) → lookup g b xs ≡ lookup s.nodes b xs
      same b = lookup-congr s.nodes g b xs named

      step :
          (b : Word)
          → lookup g b (xs ++ n ∷ [])
            ≡ or_else (lookup s.nodes b xs) (if same_word alias b then some n else none)
      step b =
          lookup-snoc g b xs n
          ∙ ap (λ o. or_else o (if same_word (g n).alias b then some n else none)) (same b)
          ∙ ap
              (λ (a : Word). or_else (lookup s.nodes b xs) (if same_word a b then some n else none))
              (ap (λ c. c.alias) new)

      found :
          (b : Word)
          → same_word alias b ≡ true
          → lookup s.nodes b xs ≡ none
          → lookup g b (xs ++ n ∷ []) ≡ some n
      found b h l = rw (step b, l, h) refl

      or_none : (o : Option ℕ) → or_else o none ≡ o
      or_none none = refl
      or_none (some x) = refl

      passed :
          (b : Word) → same_word alias b ≡ false → lookup g b (xs ++ n ∷ []) ≡ lookup s.nodes b xs
      passed b h = step b ∙ rw h (or_none (lookup s.nodes b xs))

      other : (b : Word) (o : Option ℕ) → lookup s.nodes b xs ≡ o → path_at g o ≡ path_at s.nodes o
      other b none l = refl
      other b (some x) l =
          ap (λ c. some (node_path c)) (kept x (lookup-All (λ y. y ≢ n) s.nodes b xs x l old.1))

  -- In a well-formed list, `alias` with a name and a path ends without reading a null pointer. The
  -- list is well-formed again, and has a new node at its end at most. The name stands for the path,
  -- all of it and nothing else, and every other name stands for what it did.
  pub define_alias-Defined :
      Returns (λ _ s'. Defined alias path s xs s') (define_alias alias path s)
  unfolding define_alias define_found
  define_alias-Defined =
      rw (check_alias-lookup s xs alias i) (elim (Option-cases (lookup s.nodes alias xs)) [
        | inl e ↦ rw (e, add_node_path-words path (s.nodes s.fresh).path) (Defined-appended e)
        | inr (d, e) ↦ rw (e, add_node_path-words path (s.nodes d).path) (Defined-replaced d e)
      ])
