-- ===== src/Vm/Exec.antt =====
-- The end of `exec` of p6/exec.c, after the new image is in place: the working set is emptied and
-- the pages of the image are encrypted.
pub mod Image
use cs537_spring.Prelude.{ℕ, zero, suc, ◌+◌, ◌/◌, ltb, ℤ, pos, minus_one, if◌then◌else◌}
use cs537_spring.Vm.Word.{has, pte_u, pgsize}
use cs537_spring.Vm.Machine.{
  Machine, load_pte, ok, fault, out_of_fuel, Command, and_then, with_some,
}
use cs537_spring.Vm.Crypt.{mencrypt}
use cs537_spring.Vm.Clock.{eq_zero, clearwset}

-- A round of `for (int i = 0; i < sz; i += PGSIZE)` at an address with the entry `w`. The entry is
-- read without a test of the pointer.
abbrev pub encrypt_user : Command ℤ → ℕ → ℕ → Command ℤ
encrypt_user rest i w m =
    if has pte_u w
    then and_then (mencrypt i (pos 1) m) (λ r m₁. if eq_zero r then rest m₁ else ok minus_one m₁)
    else rest m

-- The loop, for at most `n` rounds. Sizes are at most KERNBASE, so that `i` does not overflow.
unfoldable pub encrypt_image : ℕ → ℕ → ℕ → Command ℤ
encrypt_image zero sz i m = out_of_fuel
encrypt_image (suc n) sz i m =
    if ltb i sz
    then with_some fault (load_pte i m) (λ w. encrypt_user (encrypt_image n sz (i + pgsize)) i w m)
    else ok (pos 0) m

-- From `clearwset` to the return: a round for each page and one more are enough.
unfoldable pub finish_exec : ℕ → Command ℤ
finish_exec sz m = encrypt_image (sz / pgsize + 2) sz 0 (clearwset m)
