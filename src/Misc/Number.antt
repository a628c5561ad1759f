-- ===== src/Misc/Number.antt =====
-- `int(text, base)` of Python, on ASCII digits, and `str.split` at a character.
use area.Common.{
  ℕ, zero, suc, ◌+◌, ◌-◌, ◌==◌, ltb, leb, ℤ, pos, negsuc, Bool, true, false, ◌&&◌, ◌||◌, Option,
  none, some, List, [], ◌∷◌, Text, value_onto, if◌then◌else◌,
}
use area.Sync.Names.{strip, extend}

-- The value of a digit or letter.
unfoldable pub digit_value : ℕ → Option ℕ
digit_value c =
    if leb b'0' c && leb c b'9'
    then some (c - b'0')
    else if leb b'A' c && leb c b'Z'
    then some (c - b'A' + 10)
    else if leb b'a' c && leb c b'z'
    then some (c - b'a' + 10)
    else none

-- Digits below the base, and single underscores between them; `after_digit`: one has just been read.
unfoldable pub read_digits : ℕ → Bool → Text → Option (List ℕ)
unfolding digit_value
read_digits base after_digit [] = if after_digit then some [] else none
read_digits base after_digit (c ∷ s) =
    let without = read_digits base false s in
    let rest = read_digits base true s in
    if c == b'_' then if after_digit then without else none else elim (digit_value c) [
      | none ↦ none
      | some d ↦ if ltb d base then elim rest [ none ↦ none | some ds ↦ some (d ∷ ds) ] else none
    ]

-- Base 16 admits the prefix 0x, which an underscore may follow.
unfoldable pub unprefixed : ℕ → Text → Text
unprefixed base (c ∷ d ∷ s) =
    if base == 16 && c == b'0' && (d == b'x' || d == b'X') then after s else c ∷ d ∷ s
  where
    after : Text → Text
    after [] = []
    after (c ∷ s) = if c == b'_' then s else c ∷ s
unprefixed base s = s

abbrev pub signed : Bool → ℕ → ℤ
signed false n = pos n
signed true zero = pos 0
signed true (suc n) = negsuc n

abbrev pub number_of : ℕ → Bool → Option (List ℕ) → Option ℤ
number_of base minus none = none
number_of base minus (some ds) = some (signed minus (value_onto base 0 ds))

abbrev pub with_sign : ℕ → Bool → Text → Option ℤ
with_sign base minus s = number_of base minus (read_digits base false (unprefixed base s))

unfoldable pub unsigned : ℕ → Text → Option ℤ
unfolding read_digits unprefixed value_onto
unsigned base [] = none
unsigned base (c ∷ s) =
    if c == b'-'
    then with_sign base true s
    else if c == b'+'
    then with_sign base false s
    else with_sign base false (c ∷ s)

-- `int(text, base)`; none is the ValueError.
unfoldable pub int_of : ℕ → Text → Option ℤ
unfolding unsigned
int_of base s = unsigned base (strip s)

-- `text.split(c)`
unfoldable pub split_at : ℕ → Text → List Text
split_at c [] = [] ∷ []
split_at c (d ∷ s) = let rest = split_at c s in if d == c then [] ∷ rest else extend d rest
