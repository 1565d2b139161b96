-- ===== src/Syscalls/Called.antt =====
-- One call of `syscall` of p2/src/syscall.c, and what it counts.
use cs537_spring.Prelude.{
  ◌||◌, ℕ, ◌+◌, ◌%◌, ◌^◌, ◌≡◌, ◌<◌, refl, arith, ap, sym, ◌∙◌, subst, Bool, true, false, not, ◌&&◌,
  ltb, Option, none, some, List, [], ◌∷◌, update_self, ◌==◌, if◌then◌else◌, Bool-cases, inl, inr,
}
use cs537_spring.Syscalls.{
  Proc, Kernel, Handlers, minus_word, modify, is_counted, count, returned, dispatch, handler_of,
  syscall,
}

-- The current process puts a number into its register and traps.
abbrev pub call : Handlers → ℕ → Kernel → Kernel
call handlers num k = syscall handlers (modify k.current (λ p. record p { eax = num }) k)

-- The calls of a process, each with its number and the word that it returned.
abbrev pub with_call : ℕ → ℕ → List (ℕ × ℕ) × Kernel → List (ℕ × ℕ) × Kernel
with_call num r (log, k) = ((num, r) ∷ log, k)

unfoldable pub calls : Handlers → List ℕ → Kernel → List (ℕ × ℕ) × Kernel
calls handlers [] k = ([], k)
calls handlers (num ∷ nums) k =
    let k₁ = call handlers num k in with_call num (k₁.procs k₁.current).eax (calls handlers nums k₁)

-- The calls that are not counted: `fork`, `exec`, `sbrk` and the two queries.
abbrev pub excepted : ℕ → Bool
excepted num = (num == 1) || ((num == 7) || ((num == 12) || ((num == 22) || (num == 23))))

pub is_counted-excepted : (num : ℕ) → is_counted num ≡ not (excepted num)
is_counted-excepted num = ground arith

-- Is the number one of the table, and counted?
abbrev pub is_some : Option (Kernel → ℕ × Kernel) → Bool
is_some none = false
is_some (some h) = true

abbrev pub counts : Handlers → ℕ → Bool
counts handlers num = is_some (handler_of handlers num) && not (excepted num)

-- The counted calls, and those among them that have not returned -1.
unfoldable pub total : Handlers → List (ℕ × ℕ) → ℕ
total handlers [] = 0
total handlers ((num, r) ∷ log) = (if counts handlers num then 1 else 0) + total handlers log

unfoldable pub good : Handlers → List (ℕ × ℕ) → ℕ
good handlers [] = 0
good handlers ((num, r) ∷ log) =
    (if counts handlers num && not (r == minus_word) then 1 else 0) + good handlers log

-- A handler that returns to its caller and does not write the counters of it.
pub record Keeps (k k' : Kernel) : Type 0 where
  pub current : k'.current ≡ k.current
  pub syscalls : (k'.procs k.current).syscalls ≡ (k.procs k.current).syscalls
  pub syscallsgood : (k'.procs k.current).syscallsgood ≡ (k.procs k.current).syscallsgood

abbrev pub AllKeep : Handlers → Type 0
AllKeep handlers =
    (num : ℕ) (h : Kernel → ℕ × Kernel) → handlers num ≡ some h → (k : Kernel) → Keeps k (h k).1

-- One call, which is counted or not.
pub record Called (b : Bool) (k k' : Kernel) : Type 0 where
  pub current : k'.current ≡ k.current
  pub syscalls :
      (k'.procs k.current).syscalls ≡ ((k.procs k.current).syscalls + (if b then 1 else 0)) % 2 ^ 32
  pub syscallsgood :
      (k'.procs k.current).syscallsgood
      ≡ ((k.procs k.current).syscallsgood
          + (if b && not ((k'.procs k.current).eax == minus_word) then 1 else 0))
        % 2 ^ 32

abbrev pub Small : Kernel → Type 0
Small k = ((k.procs k.current).syscalls < 2 ^ 32) × ((k.procs k.current).syscallsgood < 2 ^ 32)

-- The counters of a process that returns from a call.
pub record CountedProc (b : Bool) (p p' : Proc) : Type 0 where
  pub syscalls : p'.syscalls ≡ (p.syscalls + (if b then 1 else 0)) % 2 ^ 32
  pub syscallsgood :
      p'.syscallsgood
      ≡ (p.syscallsgood + (if b && not (p'.eax == minus_word) then 1 else 0)) % 2 ^ 32

pub count-CountedProc :
    (num : ℕ) (p : Proc)
    → p.syscalls < 2 ^ 32
    → p.syscallsgood < 2 ^ 32
    → CountedProc (is_counted num) p (count num p)
count-CountedProc num p ls lg = elim (Bool-cases (is_counted num)) [
  | inr c ↦ rw c (record { syscalls = omega arith; syscallsgood = omega arith })
  | inl c ↦ elim (Bool-cases (p.eax == minus_word)) [
    | inl f ↦ rw (c, f) (record { syscalls = refl; syscallsgood = rw f (omega arith) })
    | inr f ↦ rw (c, f) (record { syscalls = refl; syscallsgood = rw f refl })
  ]
]

-- The state with the number of the call in the register.
abbrev pub numbered : ℕ → Kernel → Kernel
numbered num k = modify k.current (λ p. record p { eax = num }) k

pub numbered_at :
    (num : ℕ) (k : Kernel)
    → (numbered num k).procs k.current ≡ record (k.procs k.current) { eax = num }
numbered_at num k = update_self k.procs k.current (record (k.procs k.current) { eax = num })

pub returned-Called :
    (num : ℕ) (k : Kernel) (x : ℕ × Kernel)
    → Small k
    → Keeps (numbered num k) x.1
    → Called (is_counted num) k (returned k.current num x)
returned-Called num k (r, k') (ls, lg) h = record {
  current = h.current;
  syscalls =
      ap (λ p. p.syscalls) at
      ∙ q.syscalls
      ∙ ap (λ n. (n + (if is_counted num then 1 else 0)) % 2 ^ 32) es;
  syscallsgood =
      subst
        (λ p.
          p.syscallsgood
          ≡ ((k.procs k.current).syscallsgood
              + (if is_counted num && not (p.eax == minus_word) then 1 else 0))
            % 2 ^ 32)
        (sym at)
        (q.syscallsgood
          ∙ ap
              (λ n.
                (n + (if is_counted num && not ((count num p').eax == minus_word) then 1 else 0))
                % 2 ^ 32)
              eg);
}
  where
    p' : Proc
    p' = record (k'.procs k.current) { eax = r }

    at : (returned k.current num (r, k')).procs k.current ≡ count num p'
    at = update_self k'.procs k.current (count num p')

    es : (k'.procs k.current).syscalls ≡ (k.procs k.current).syscalls
    es = h.syscalls ∙ ap (λ p. p.syscalls) (numbered_at num k)

    eg : (k'.procs k.current).syscallsgood ≡ (k.procs k.current).syscallsgood
    eg = h.syscallsgood ∙ ap (λ p. p.syscallsgood) (numbered_at num k)

    q : CountedProc (is_counted num) p' (count num p')
    q =
        count-CountedProc num p' (subst (λ n. n < 2 ^ 32) (sym es) ls)
          (subst (λ n. n < 2 ^ 32) (sym eg) lg)

pub dispatch-Called :
    (handlers : Handlers) (num : ℕ) (k : Kernel) (o : Option (Kernel → ℕ × Kernel))
    → Small k
    → ((h : Kernel → ℕ × Kernel) → o ≡ some h → Keeps (numbered num k) (h (numbered num k)).1)
    → Called (is_some o && is_counted num) k (dispatch k.current num (numbered num k) o)
dispatch-Called handlers num k none (ls, lg) keep = record {
  current = refl;
  syscalls = ap (λ p. p.syscalls) at ∙ ap (λ p. p.syscalls) (numbered_at num k) ∙ omega (arith, ls);
  syscallsgood =
      ap (λ p. p.syscallsgood) at
      ∙ ap (λ p. p.syscallsgood) (numbered_at num k)
      ∙ omega (arith, lg);
}
  where
    failed : Proc
    failed = record ((numbered num k).procs k.current) { eax = minus_word }

    at :
        (modify k.current (λ p. record p { eax = minus_word }) (numbered num k)).procs k.current
        ≡ failed
    at = update_self (numbered num k).procs k.current failed
dispatch-Called handlers num k (some h) small keep =
    returned-Called num k (h (numbered num k)) small (keep h refl)

pub call_counted :
    (handlers : Handlers) (num : ℕ) (k : Kernel)
    → AllKeep handlers
    → Small k
    → Called (is_some (handler_of handlers num) && is_counted num) k (call handlers num k)
unfolding syscall
call_counted handlers num k keep small =
    subst (Called (is_some (handler_of handlers num) && is_counted num) k)
      (ap (λ n. dispatch k.current n (numbered num k) (handler_of handlers n))
        (sym (ap (λ p. p.eax) (numbered_at num k))))
      (dispatch-Called handlers num k (handler_of handlers num) small
        λ h e. keep num h (known num h e) (numbered num k))
  where
    known :
        (num : ℕ) (h : Kernel → ℕ × Kernel)
        → handler_of handlers num ≡ some h
        → handlers num ≡ some h
    known num h e = chosen (ltb 0 num && ltb num 24) num h e
      where
        chosen :
            (b : Bool) (num : ℕ) (h : Kernel → ℕ × Kernel)
            → (if b then handlers num else none) ≡ some h
            → handlers num ≡ some h
        chosen true num h e = e
        chosen false num h e = cc

pub call-Called :
    (handlers : Handlers) (num : ℕ) (k : Kernel)
    → AllKeep handlers
    → Small k
    → Called (counts handlers num) k (call handlers num k)
unfolding syscall
call-Called handlers num k keep small =
    subst (λ b. Called (is_some (handler_of handlers num) && b) k (call handlers num k))
      (is_counted-excepted num) (call_counted handlers num k keep small)

pub add_wrapped :
    (x y s b t : ℕ) → x ≡ (y + t) % 2 ^ 32 → y ≡ (s + b) % 2 ^ 32 → x ≡ (s + (b + t)) % 2 ^ 32
add_wrapped x y s b t e f = omega arith
