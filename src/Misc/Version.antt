-- ===== src/Misc/Version.antt =====
-- postgresql/misc.py: PostgreSQL's version numbers.
use area.Common.{
  ℕ, suc, ◌+◌, ◌*◌, ◌/◌, ltb, ℤ, pos, negsuc, Bool, true, Option, none, some, List, [], ◌∷◌, ◌++◌,
  map, Text, digits, if◌then◌else◌,
}
use area.Misc.Number.{int_of, split_at}

pub data Version : Type 0 where
  version : ℤ → Version
  -- The two messages of PostgresException.
  invalid_version invalid_format : Version
  -- A component other than the first is negative, and `int` of the joined text raises ValueError.
  unreadable : Version

-- `list(map(int, …))`; none is the ValueError.
abbrev pub components_of : List Text → Option (List ℤ)
components_of [] = some []
components_of (part ∷ parts) = elim (int_of 10 part) [
  | none ↦ none
  | some n ↦ elim (components_of parts) [ none ↦ none | some ns ↦ some (n ∷ ns) ]
]

unfoldable pub is_below_ten : ℤ → Bool
is_below_ten (pos n) = ltb n 10
is_below_ten (negsuc n) = true

-- `'{0:02d}'`
unfoldable pub two_digits : ℕ → Text
two_digits n = if ltb n 10 then b'0' ∷ (b'0' + n) ∷ [] else map (λ d. b'0' + d) (digits 10 n)

-- `'{0:02d}'`, whose width counts the sign.
unfoldable pub component_text : ℤ → Text
unfolding two_digits
component_text (pos n) = two_digits n
component_text (negsuc n) = b'-' ∷ map (λ d. b'0' + d) (digits 10 (suc n))

abbrev pub joined : List ℤ → Text
joined [] = []
joined (n ∷ ns) = component_text n ++ joined ns

-- `int(''.join(…))`
abbrev pub version_of : List ℤ → Version
version_of ns = elim (int_of 10 (joined ns)) [ none ↦ unreadable | some n ↦ version n ]

-- 10.1 is 10.0.1 in the old style.
abbrev pub in_format : List ℤ → Version
in_format (major ∷ minor ∷ []) =
    if is_below_ten major then invalid_format else version_of (major ∷ pos 0 ∷ minor ∷ [])
in_format (a ∷ b ∷ c ∷ []) = version_of (a ∷ b ∷ c ∷ [])
in_format _ = invalid_format

unfoldable pub postgres_version_to_int : Text → Version
unfolding int_of split_at is_below_ten component_text
postgres_version_to_int pg_version = elim (components_of (split_at b'.' pg_version)) [
  | none ↦ invalid_version
  | some components ↦ in_format components
]

unfoldable pub postgres_major_version_to_int : Text → Version
unfolding postgres_version_to_int
postgres_major_version_to_int pg_version = postgres_version_to_int (pg_version ++ b'.' ∷ b'0' ∷ [])

unfoldable pub get_major_from_minor_version : ℕ → ℕ
get_major_from_minor_version number = number / 100 * 100
