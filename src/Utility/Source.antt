-- ===== src/Utility/Source.antt =====
-- The choice of the input and the strings of p1's utilities.
use cs537_spring.Prelude.{ℕ, ◌<◌, ◌≡◌, refl, arith, ltb, false, List, [], ◌∷◌, map, some}
use cs537_spring.Utility.{Text, file, go, Source, options, c_string}
use cs537_spring.Utility.Lines.{IsText}

-- The file that the last option -f names.
unfoldable pub last_file : List Text → Source → Source
last_file [] source = source
last_file (f ∷ fs) source = last_file fs (some f)

pub options-file :
    (fs : List Text) (source : Source) → options (map file fs) source ≡ go (last_file fs source)
unfolding options last_file
options-file [] source = refl
options-file (f ∷ fs) source = options-file fs (some f)

pub c_string-text : (s : Text) → IsText s → c_string s ≡ s
unfolding c_string
c_string-text [] h = refl
c_string-text (c ∷ s) h = ground (arith, h.0, c_string-text s h.1)

pub not_below : (n : ℕ) → 0 < n → ltb n 1 ≡ false
not_below n h = ground arith
