-- ===== src/Slots/Name.antt =====
-- `slot_name_from_member_name`.
use area.Common.{
  ℕ, ◌+◌, ◌/◌, ◌%◌, ltb, leb, ◌==◌, Bool, ◌&&◌, ◌||◌, [], ◌∷◌, ◌++◌, take, Text, lower,
  if◌then◌else◌,
}

-- The characters that the pattern `[^a-z0-9_]` spares.
unfoldable pub is_slot_char : ℕ → Bool
is_slot_char c = (leb b'a' c && leb c b'z') || (leb b'0' c && leb c b'9') || c == b'_'

abbrev pub digit : ℕ → ℕ
digit n = b'0' + n % 10

-- `f"{n:04d}"` of a code point, which has at most seven digits.
unfoldable pub format_04d : ℕ → Text
format_04d n =
    let low = digit (n / 1000) ∷ digit (n / 100) ∷ digit (n / 10) ∷ digit n ∷ [] in
    if ltb n 10000
    then low
    else if ltb n 100000
    then digit (n / 10000) ∷ low
    else if ltb n 1000000
    then digit (n / 100000) ∷ digit (n / 10000) ∷ low
    else digit (n / 1000000) ∷ digit (n / 100000) ∷ digit (n / 10000) ∷ low

unfoldable pub replace_char : ℕ → Text
replace_char c = if c == b'-' || c == b'.' then b'_' ∷ [] else b'u' ∷ format_04d c

-- `re.sub`
unfoldable pub replace_chars : Text → Text
replace_chars [] = []
replace_chars (c ∷ s) =
    let rest = replace_chars s in if is_slot_char c then c ∷ rest else replace_char c ++ rest

unfoldable pub slot_name_from_member_name : Text → Text
slot_name_from_member_name member_name = take 63 (replace_chars (lower member_name))
