-- ===== src/Vm/Crypt/Flip.antt =====
-- Flipping all bits of the bytes of a page.
use cs537_spring.Prelude.{
  ap, ◌∙◌, fun_ext, ℕ, zero, suc, ◌+◌, ◌-◌, ◌≡◌, ◌<◌, ◌&&◌, leb, ltb, arith, update, if◌then◌else◌,
}
use cs537_spring.Vm.Crypt.{pgsize, flip_from}

-- Each byte of the range is replaced by its complement once, and the others stay.
pub flip_from_lem :
    (n i j : ℕ) (f : ℕ → ℕ)
    → flip_from n i f j ≡ (if leb i j && ltb j (i + n) then 255 - f j else f j)
unfolding flip_from
flip_from_lem zero i j f = ground arith
flip_from_lem (suc n) i j f = ground (arith, flip_from_lem n (i + 1) j (update f i (255 - f i)))

-- A second pass gives bytes back.
pub flip_from-flip_from :
    (n i j : ℕ) (f : ℕ → ℕ) → f j < 256 → flip_from n i (flip_from n i f) j ≡ f j
flip_from-flip_from n i j f h =
    ground (arith, flip_from_lem n i j (flip_from n i f), flip_from_lem n i j f)

-- A page whose 4096 bytes have been replaced by their complements.
abbrev pub complement : (ℕ → ℕ) → ℕ → ℕ
complement f j = if ltb j 4096 then 255 - f j else f j

pub flip_from-complement : (f : ℕ → ℕ) → flip_from pgsize 0 f ≡ complement f
flip_from-complement f =
    fun_ext λ j. flip_from_lem pgsize 0 j f ∙ ap (λ b. if b then 255 - f j else f j) (from_zero j)
  where
    from_zero : (j : ℕ) → (leb 0 j && ltb j (0 + pgsize)) ≡ ltb j 4096
    from_zero j = ground arith
