-- ===== src/Syscalls/Query.antt =====
-- The queries and `allocproc` of p2/src/proc.c.
use cs537_spring.Prelude.{
  pos, eq_int, negsuc, ℤ, ℕ, zero, suc, ◌+◌, ◌-◌, ◌≡◌, ◌≢◌, ◌^◌, ◌≤◌, ◌<◌, refl, arith, ap, sym,
  ◌∙◌, subst, Bool, true, false, Option, none, some, update, update_self, ◌==◌, if◌then◌else◌,
  Bool-cases, inl, inr,
}
use cs537_spring.Syscalls.{
  int_of_word, embryo, Proc, Kernel, nproc, find_pid, or_minus_one, acquire, query_locked,
  getnumsyscalls, getnumsyscallsgood, find_unused, alloc_found, alloc_locked, allocproc, is_unused,
}

-- The first slot of the table with a pid, where there is one.
abbrev pub FirstWith : ℤ → Kernel → Option ℕ → Type 0
FirstWith pid k none = (p : ℕ) → p < nproc → pos (k.procs p).pid ≢ pid
FirstWith pid k (some q) =
    (q < nproc) × (pos (k.procs q).pid ≡ pid) × ((p : ℕ) → p < q → pos (k.procs p).pid ≢ pid)

-- What a query returns, by the first slot with the pid: the 32-bit counter of that slot in two's
-- complement, or -1.
abbrev pub Answer : (Proc → ℕ) → Kernel → Option ℕ → ℤ → Type 0
Answer field k none r = r ≡ negsuc 0
Answer field k (some q) r =
    (field (k.procs q) < 2 ^ 31 → r ≡ pos (field (k.procs q)))
    × (2 ^ 31 ≤ field (k.procs q) → (n : ℕ) × (r ≡ negsuc n) × (field (k.procs q) + n + 1 ≡ 2 ^ 32))

-- A query with the lock free answers, and leaves the state as it was.
abbrev pub Answers : (Proc → ℕ) → Kernel → Option ℕ → Option (ℤ × Kernel) → Type 0
Answers field k o result = (r : ℤ) × (result ≡ some (r, k)) × Answer field k o r

-- The counters of the table are words.
abbrev pub AreWords : (Proc → ℕ) → Kernel → Type 0
AreWords field k = (p : ℕ) → p < nproc → field (k.procs p) < 2 ^ 32

int_of_word-Answer :
    (w : ℕ)
    → w < 2 ^ 32
    → (w < 2 ^ 31 → int_of_word w ≡ pos w)
      × (2 ^ 31 ≤ w → (n : ℕ) × (int_of_word w ≡ negsuc n) × (w + n + 1 ≡ 2 ^ 32))
int_of_word-Answer w l = (λ a. ground arith, λ b. (2 ^ 32 - 1 - w, ground arith, omega arith))

or_minus_one-Answer :
    (field : Proc → ℕ) (pid : ℤ) (k : Kernel) (o : Option ℕ)
    → AreWords field k
    → FirstWith pid k o
    → Answer field k o (or_minus_one field k o)
or_minus_one-Answer field pid k none words f = refl
or_minus_one-Answer field pid k (some q) words f =
    int_of_word-Answer (field (k.procs q)) (words q f.0)

find_pid-FirstWith_from :
    (n : ℕ) (pid : ℤ) (k : Kernel)
    → n ≤ nproc
    → ((p : ℕ) → p < nproc - n → pos (k.procs p).pid ≢ pid)
    → FirstWith pid k (find_pid n pid k)
unfolding find_pid
find_pid-FirstWith_from zero pid k l h = λ p lt. h p (omega arith)
find_pid-FirstWith_from (suc n) pid k l h =
    elim (Bool-cases (eq_int (k.procs (nproc - suc n)).pid pid)) [
      | inl e ↦ rw e (omega arith, same (k.procs (nproc - suc n)).pid pid e, h)
      | inr e ↦ rw e (
          find_pid-FirstWith_from n pid k (omega arith) λ p lt.
            elim (Bool-cases (p == nproc - suc n)) [
              | inl q ↦
                  subst (λ i. pos (k.procs i).pid ≢ pid) (sym (equal p (nproc - suc n) q))
                    (other (k.procs (nproc - suc n)).pid pid e)
              | inr q ↦ h p (ground arith)
            ])
    ]
  where
    equal : (a b : ℕ) → (a == b) ≡ true → a ≡ b
    equal a b e = ground arith

    same : (a : ℕ) (z : ℤ) → eq_int a z ≡ true → pos a ≡ z
    same a (pos b) e = ap pos (equal a b e)
    same a (negsuc b) e = cc

    other : (a : ℕ) (z : ℤ) → eq_int a z ≡ false → pos a ≢ z
    other a (pos b) e q = ground arith
    other a (negsuc b) e q = cc

find_pid-locked :
    (n : ℕ) (pid : ℤ) (b : Bool) (k : Kernel)
    → find_pid n pid (record k { locked = b }) ≡ find_pid n pid k
unfolding find_pid
find_pid-locked zero pid b k = refl
find_pid-locked (suc n) pid b k =
    ap (λ o. if eq_int (k.procs (nproc - suc n)).pid pid then some (nproc - suc n) else o)
      (find_pid-locked n pid b k)

or_minus_one-locked :
    (field : Proc → ℕ) (b : Bool) (k : Kernel) (o : Option ℕ)
    → or_minus_one field (record k { locked = b }) o ≡ or_minus_one field k o
or_minus_one-locked field b k none = refl
or_minus_one-locked field b k (some p) = refl

query_locked-free :
    (field : Proc → ℕ) (pid : ℤ) (k : Kernel)
    → k.locked ≡ false
    → query_locked field pid (acquire k) ≡ some (or_minus_one field k (find_pid nproc pid k), k)
query_locked-free field pid k e =
    let taken : Kernel = record k { locked = true } in
    let freed : Kernel = record k { locked = false } in
    ap (λ b. query_locked field pid (if b then none else some taken)) e
    ∙ ap (λ o. some (or_minus_one field taken o, freed)) (find_pid-locked nproc pid true k)
    ∙ ap (λ r. some (r, freed)) (or_minus_one-locked field true k (find_pid nproc pid k))
    ∙ ap (λ b. some (or_minus_one field k (find_pid nproc pid k), record k { locked = b })) (sym e)

query_locked-taken :
    (field : Proc → ℕ) (pid : ℤ) (k : Kernel)
    → k.locked ≡ true
    → query_locked field pid (acquire k) ≡ none
query_locked-taken field pid k e =
    ap (λ b. query_locked field pid (if b then none else some (record k { locked = true }))) e

-- Where the counters are 32-bit words, and with the lock free, both queries return the counter of
-- the first slot of the table that has the pid, as an `int` in two's complement, or -1 if no slot
-- has it; no slot has a negative pid. The state stays as it was. With the lock taken they panic.
pub getnumsyscalls-FirstWith :
    (pid : ℤ) (k : Kernel)
    → AreWords (λ p. p.syscalls) k
    → AreWords (λ p. p.syscallsgood) k
    → (o : Option ℕ) × FirstWith pid k o
      × (k.locked ≡ false
          → Answers (λ p. p.syscalls) k o (getnumsyscalls pid k)
            × Answers (λ p. p.syscallsgood) k o (getnumsyscallsgood pid k))
      × (k.locked ≡ true → (getnumsyscalls pid k ≡ none) × (getnumsyscallsgood pid k ≡ none))
unfolding getnumsyscalls getnumsyscallsgood
getnumsyscalls-FirstWith pid k words words_good =
    let o = find_pid nproc pid k in
    let first = find_pid-FirstWith_from nproc pid k (omega arith) (λ p l. absurd (omega arith)) in
    (
      o,
      first,
      λ e. (
        (
          or_minus_one (λ p. p.syscalls) k o,
          query_locked-free (λ p. p.syscalls) pid k e,
          or_minus_one-Answer (λ p. p.syscalls) pid k o words first,
        ),
        (
          or_minus_one (λ p. p.syscallsgood) k o,
          query_locked-free (λ p. p.syscallsgood) pid k e,
          or_minus_one-Answer (λ p. p.syscallsgood) pid k o words_good first,
        ),
      ),
      λ e. (
        query_locked-taken (λ p. p.syscalls) pid k e,
        query_locked-taken (λ p. p.syscallsgood) pid k e,
      ),
    )

find_unused-locked :
    (n : ℕ) (b : Bool) (k : Kernel) → find_unused n (record k { locked = b }) ≡ find_unused n k
unfolding find_unused
find_unused-locked zero b k = refl
find_unused-locked (suc n) b k =
    ap (λ o. if is_unused (k.procs (nproc - suc n)).state then some (nproc - suc n) else o)
      (find_unused-locked n b k)

-- A slot that `allocproc` gives to a new process.
pub record Allocated (p : ℕ) (k k' : Kernel) : Type 0 where
  pub state : (k'.procs p).state ≡ embryo
  pub pid : (k'.procs p).pid ≡ k.nextpid
  pub nextpid : k'.nextpid ≡ k.nextpid + 1
  pub syscalls : (k'.procs p).syscalls ≡ (k.procs p).syscalls
  pub syscallsgood : (k'.procs p).syscallsgood ≡ (k.procs p).syscallsgood

-- With the lock free, an unused slot and memory for a stack, `allocproc` gives the first unused slot
-- of the search to a process with the next pid, which starts with both counters as the process
-- that had the slot before left them.
pub allocproc-Allocated :
    (p : ℕ) (k : Kernel)
    → k.locked ≡ false
    → find_unused nproc k ≡ some p
    → (k' : Kernel) × (allocproc true k ≡ some (some p, k')) × Allocated p k k'
unfolding allocproc
allocproc-Allocated p k e f = (
  final,
  run,
  record {
    state = ap (λ c. c.state) at;
    pid = ap (λ c. c.pid) at;
    nextpid = refl;
    syscalls = ap (λ c. c.syscalls) at;
    syscallsgood = ap (λ c. c.syscallsgood) at;
  },
)
  where
    taken : Kernel
    taken = record k { locked = true }

    slot : Proc
    slot = record (k.procs p) { state = embryo; pid = k.nextpid }

    final : Kernel
    final = record k { procs = update k.procs p slot; nextpid = k.nextpid + 1; locked = false }

    at : final.procs p ≡ slot
    at = update_self k.procs p slot

    run : alloc_locked true (acquire k) ≡ some (some p, final)
    run =
        ap (λ b. alloc_locked true (if b then none else some taken)) e
        ∙ ap (λ o. alloc_found true taken o) (find_unused-locked nproc true k ∙ f)
