-- ===== src/Common/Strings.antt =====
-- Python's `str` as its code points, with ASCII letters for `str.lower`.
use Prim.Native.Nat.{ℕ, ◌+◌}
use Prim.Native.Char.{code}
use Prim.Native.String.{String}
use mathlib.Core.Path.{◌≡◌, refl}
use mathlib.Core.Bool.{Bool, true, false, ◌&&◌}
use mathlib.Core.List.{List, [], ◌∷◌, map}
use native.Mathlib.Omega.{arith}
use area.Common.Tests.{ltb, leb, ◌==◌, if◌then◌else◌}

abbrev pub Text : Type 0
Text = List ℕ

-- A literal of the source.
abbrev pub codes : String → Text
codes String.[] = []
codes (String.◌∷◌ c s) = code c ∷ codes s

unfoldable pub eq_text : Text → Text → Bool
eq_text [] [] = true
eq_text [] (d ∷ t) = false
eq_text (c ∷ s) [] = false
eq_text (c ∷ s) (d ∷ t) = c == d && eq_text s t

pub eq_text_refl : (s : Text) → eq_text s s ≡ true
unfolding eq_text
eq_text_refl [] = refl
eq_text_refl (c ∷ s) = ground (arith, eq_text_refl s)

pub eq_of_eq_text : (s t : Text) → eq_text s t ≡ true → s ≡ t
unfolding eq_text
eq_of_eq_text [] [] h = refl
eq_of_eq_text [] (d ∷ t) h = cc
eq_of_eq_text (c ∷ s) [] h = cc
eq_of_eq_text (c ∷ s) (d ∷ t) h = ground (arith, eq_of_eq_text s t)

-- Python compares strings by code points, a proper prefix being the smaller.
unfoldable pub ltb_text : Text → Text → Bool
ltb_text [] [] = false
ltb_text [] (d ∷ t) = true
ltb_text (c ∷ s) [] = false
ltb_text (c ∷ s) (d ∷ t) = let later = ltb_text s t in if c == d then later else ltb c d

abbrev pub lower_char : ℕ → ℕ
lower_char c = if leb b'A' c && leb c b'Z' then c + 32 else c

unfoldable pub lower : Text → Text
lower s = map lower_char s
