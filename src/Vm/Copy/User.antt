-- ===== src/Vm/Copy/User.antt =====
-- `copyout` of p6/vm.c, with its own `uva2ka`.
use cs537_spring.Prelude.{ℕ, ◌+◌, ◌^◌, ◌≡◌, ◌≤◌, ◌<◌, refl, arith, Option, none, some}
use cs537_spring.Vm.Word.{pground_down}
use cs537_spring.Vm.Machine.{Machine, ok, load_pte, Returns}
use cs537_spring.Vm.Crypt.{uva2ka, uva2ka_of}
use cs537_spring.Vm.Crypt.Pages.{Mapped}
use cs537_spring.Vm.Copy.{copyout}
use cs537_spring.Vm.Copy.Copied.{CopyEnd, copy_from-Copied}

-- The frame behind a user address.
abbrev pub frame_of : Option ℕ → Option ℕ
frame_of none = none
frame_of (some w) = uva2ka_of w

abbrev pub frame_at : Machine → ℕ → Option ℕ
frame_at m a = frame_of (load_pte a m)

load-dir : (a : ℕ) (m m' : Machine) → m'.dir ≡ m.dir → load_pte a m' ≡ load_pte a m
unfolding load_pte
load-dir a m m' e = ground arith

uva2ka-frame_at :
    (a : ℕ) (m m' : Machine) → m'.dir ≡ m.dir → Mapped m a → uva2ka a m' ≡ ok (frame_at m a) m'
unfolding uva2ka
uva2ka-frame_at a m m' e (w, l) = rw (load-dir a m m' e, l) refl

-- If the range of `total` bytes from `va` on does not wrap around, its page tables exist, its pages
-- have no frame in common, and the bytes do not depend on the memory, `copyout` returns. The result
-- is 0 and each byte is in the frame of its address, or the result is -1, some page of the range is
-- not a user page that is present or encrypted, and the bytes before it are copied. No other byte
-- of the memory, no entry and no size has changed.
pub copyout-CopyEnd :
    (bytes : ℕ → ℕ) (m : Machine) (va total : ℕ)
    → va + total < 2 ^ 32
    → ((a : ℕ) → pground_down a ≡ a → pground_down va ≤ a → a < va + total → Mapped m a)
    → ((a b f : ℕ)
        → pground_down a ≡ a
        → pground_down b ≡ b
        → pground_down va ≤ a
        → a < va + total
        → pground_down va ≤ b
        → b < va + total
        → frame_at m a ≡ some f
        → frame_at m b ≡ some f
        → a ≡ b)
    → Returns (CopyEnd (frame_at m) bytes va total m) (copyout (λ _. bytes) va total m)
copyout-CopyEnd bytes m va total small mapped distinct =
    copy_from-Copied uva2ka (frame_at m) bytes m va total small
      (λ a m' e al lo hi. uva2ka-frame_at a m m' e (mapped a al lo hi)) distinct
