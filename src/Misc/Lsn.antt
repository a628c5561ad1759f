-- ===== src/Misc/Lsn.antt =====
-- WAL positions as text, `parse_history`, and what it yields.
use area.Common.{
  ℕ, zero, suc, ◌+◌, ◌-◌, ◌*◌, ◌/◌, ◌%◌, ◌^◌, ltb, ℤ, pos, negsuc, ◌+ℤ◌, Bool, Option, none, some,
  List, [], ◌∷◌, ◌++◌, map, length, Text, digits, if◌then◌else◌,
}
use area.Sync.Names.{strip}
use area.Misc.Number.{int_of, split_at}

-- `{:X}` of one digit.
unfoldable pub hex_char : ℕ → ℕ
hex_char d = if ltb d 10 then b'0' + d else b'A' + (d - 10)

-- `{:X}`
unfoldable pub hex : ℕ → Text
unfolding hex_char
hex n = map hex_char (digits 16 n)

unfoldable pub zeros : ℕ → Text
zeros zero = []
zeros (suc n) = b'0' ∷ zeros n

-- `{:08X}`
unfoldable pub padded : Text → Text
unfolding zeros
padded s = zeros (8 - length s) ++ s

abbrev pub two_32 : ℕ
two_32 = 2 ^ 32

-- `format_lsn`
unfoldable pub format_lsn : ℕ → Bool → Text
unfolding hex padded
format_lsn lsn full =
    hex (lsn / two_32) ++ b'/' ∷ (if full then padded (hex (lsn % two_32)) else hex (lsn % two_32))

abbrev pub times : ℕ → ℤ → ℤ
times k (pos n) = pos (k * n)
times k (negsuc n) = negsuc (k * suc n - 1)

abbrev pub of_numbers : Option ℤ → Option ℤ → Option ℤ
of_numbers (some h) (some l) = some (times two_32 h +ℤ l)
of_numbers _ _ = none

-- The first two parts, which have to be there; none is the IndexError or the ValueError.
abbrev pub of_parts : List Text → Option ℤ
of_parts (high ∷ low ∷ rest) = of_numbers (int_of 16 high) (int_of 16 low)
of_parts _ = none

-- `parse_lsn`
unfoldable pub parse_lsn : Text → Option ℤ
unfolding int_of split_at
parse_lsn lsn = of_parts (split_at b'/' lsn)

-- A line of a timeline history file.
pub record HistoryLine : Type 0 where
  pub timeline : ℤ
  pub lsn : ℤ
  pub reason : Text

-- A line that is not of that form is left out.
abbrev of_values : List Text → Option HistoryLine
of_values (timeline ∷ lsn ∷ reason ∷ []) = elim (int_of 10 timeline) [
  | none ↦ none
  | some t ↦ elim (parse_lsn lsn) [
    | none ↦ none
    | some l ↦ some (record { timeline = t; lsn = l; reason = reason })
  ]
]
of_values _ = none

abbrev lines_of : List Text → List HistoryLine
lines_of [] = []
lines_of (line ∷ lines) =
    let rest = lines_of lines in
    elim (of_values (split_at 9 (strip line))) [ none ↦ rest | some l ↦ l ∷ rest ]

-- `parse_history`
unfoldable pub parse_history : Text → List HistoryLine
unfolding int_of split_at parse_lsn
parse_history content = lines_of (split_at 10 content)
