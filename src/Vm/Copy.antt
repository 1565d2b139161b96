-- ===== src/Vm/Copy.antt =====
-- `copyout` and `dump_rawphymem` of p6/vm.c, and the loop that p5/src/vm.c shares with it up to
-- the function that finds a page. Addresses are 32-bit numbers. `memmove` reads the whole of a
-- piece before it writes it, so that a buffer may overlap with the page.
pub mod Moved
pub mod Copied
pub mod User
use cs537_spring.Prelude.{
  eq_int, ℕ, zero, suc, ◌+◌, ◌-◌, ◌*◌, ◌/◌, ◌%◌, ◌^◌, min, Bool, ◌&&◌, leb, ltb, ◌==◌, Option, none,
  some, ℤ, pos, minus_one, update, if◌then◌else◌,
}
use cs537_spring.Vm.Word.{pte_p, has, pgsize, pground_down}
use cs537_spring.Vm.Clock.{mdecrypt}
use cs537_spring.Vm.Machine.{
  load_pte, with_some, Machine, Result, ok, fault, out_of_fuel, Command, and_then,
}
use cs537_spring.Vm.Crypt.{mencrypt, uva2ka, add_addr}

-- `memmove` of `n` bytes, from index `b` of a buffer to offset `off` of a page.
abbrev pub moved : (ℕ → ℕ) → ℕ → ℕ → ℕ → (ℕ → ℕ) → ℕ → ℕ
moved buf b off n page j = if leb off j && ltb j (off + n) then buf (b + (j - off)) else page j

-- How many bytes a round copies.
abbrev pub piece : ℕ → ℕ → ℕ
piece va len = min (pgsize - (va - pground_down va)) len

module _ (find : ℕ → Command (Option ℕ)) (buf : Machine → ℕ → ℕ) where
  -- A round at the address `va`, with the page that was found.
  abbrev pub copy_at : Command ℤ → ℕ → ℕ → ℕ → Option ℕ → Command ℤ
  copy_at rest b va len none m = ok minus_one m
  copy_at rest b va len (some page) m = rest (record m {
    mem = update m.mem page (moved (buf m) b (va - pground_down va) (piece va len) (m.mem page));
  })

  -- The loop, with `len` bytes left from index `b` of the buffer on.
  unfoldable pub copy_from : ℕ → ℕ → ℕ → ℕ → Command ℤ
  copy_from zero b va len m = if len == 0 then ok (pos 0) m else out_of_fuel
  copy_from (suc fuel) b va len m =
      let n = piece va len in
      let rest = copy_from fuel (b + n) (add_addr (pground_down va) pgsize) (len - n) in
      if len == 0 then ok (pos 0) m else and_then (find (pground_down va) m) (copy_at rest b va len)

-- `copyout` of p6: a round for each byte is enough.
abbrev pub copyout : (Machine → ℕ → ℕ) → ℕ → ℕ → Command ℤ
copyout buf va len = copy_from uva2ka buf len 0 va len

-- `dump_rawphymem`: the bytes of memory from a physical address on.
abbrev pub physical : ℕ → Machine → ℕ → ℕ
physical pa m i = m.mem ((pa + i) / 4096) ((pa + i) % 4096)

-- `*buffer = *buffer`, of a page that may be written: if the page is not present, the page fault is
-- handled by `mdecrypt`, and the kernel panics where that fails.
abbrev pub touch_at : ℕ → Machine → ℕ → Result (Unit {0})
touch_at va m w =
    if has pte_p w
    then ok tt m
    else and_then (mdecrypt va m) (λ r m₁. if eq_int 0 r then ok tt m₁ else fault)

unfoldable pub touch : ℕ → Command (Unit {0})
touch va m = with_some (and_then (mdecrypt va m) (λ r m₁. fault)) (load_pte va m) (touch_at va m)

-- `dump_rawphymem`.
unfoldable pub dump_rawphymem : ℕ → ℕ → Command ℤ
unfolding touch
dump_rawphymem pa buffer m =
    and_then (touch buffer m) λ _ m₁. copyout (physical pa) buffer pgsize m₁
