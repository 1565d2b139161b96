-- ===== src/Rev.antt =====
-- p1/my-rev.c: `reverse_string`. The string is a buffer, read and written by index. The pointer
-- `end` is the index after its byte, so that a string of only a newline has the end 0 and not -1.
pub mod Reverse
pub mod Main
pub mod Lines
pub mod Program
pub mod Twice
mod Tests
use cs537_spring.Prelude.{ℕ, zero, suc, ◌+◌, ◌-◌, ltb, update, ◌==◌, if◌then◌else◌}

abbrev pub newline : ℕ
newline = 10

-- `while (start < end)`: the bytes at both ends change places.
unfoldable pub swap_from : ℕ → ℕ → ℕ → (ℕ → ℕ) → ℕ → ℕ
swap_from zero start end str = str
swap_from (suc fuel) start end str =
    let tmp = str start in
    let str₁ = update str start (str (end - 1)) in
    let str₂ = update str₁ (end - 1) tmp in
    let rest = swap_from fuel (start + 1) (end - 1) str₂ in
    if ltb (start + 1) end then rest else str

-- The index after the last byte to be moved: a newline at the end stays where it is.
abbrev pub end_of : (ℕ → ℕ) → ℕ → ℕ
end_of str len = if str (len - 1) == newline then len - 1 else len

-- `reverse_string`, for a length that is not 0. The length bounds the number of rounds.
unfoldable pub reverse_string : (ℕ → ℕ) → ℕ → ℕ → ℕ
reverse_string str len = swap_from len 0 (end_of str len) str
