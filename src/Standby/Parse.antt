-- ===== src/Standby/Parse.antt =====
-- `quote_standby_name` and `parse_sync_standby_names`.
use area.Common.{
  ℕ, ◌==◌, ℤ, pos, Bool, true, false, not, ◌&&◌, ◌||◌, Option, none, some, List, [], ◌∷◌, ◌++◌,
  Text, codes, lower, eq_text, if◌then◌else◌,
}
use area.Collections.{CaseInsensitiveSet, add}
use area.Standby.Token.{Token, is_ident_start, is_ident_char, tokens}

-- SYNC_STANDBY_NAME_RE, whose `$` also stands before a line break at the end.
abbrev plain_rest : Text → Bool
plain_rest [] = true
plain_rest (c ∷ []) = is_ident_char c || c == 10
plain_rest (c ∷ d ∷ s) = is_ident_char c && plain_rest (d ∷ s)

unfoldable pub is_plain : Text → Bool
unfolding is_ident_start is_ident_char
is_plain [] = false
is_plain (c ∷ s) = is_ident_start c && plain_rest s

abbrev pub double_quotes : Text → Text
double_quotes [] = []
double_quotes (c ∷ s) = if c == b'"' then c ∷ c ∷ double_quotes s else c ∷ double_quotes s

-- `quote_ident` of psycopg.py without a connection.
unfoldable pub quote_ident : Text → Text
quote_ident value = b'"' ∷ (double_quotes value ++ b'"' ∷ [])

unfoldable pub quote_standby_name : Text → Text
unfolding is_plain quote_ident
quote_standby_name value =
    if is_plain value
      && not (eq_text (lower value) (codes "first") || eq_text (lower value) (codes "any"))
    then value
    else quote_ident value

pub data SyncType : Type 0 where
  off priority quorum : SyncType

pub record Ssn : Type 0 where
  pub sync_type : SyncType
  pub has_star : Bool
  pub num : ℤ
  pub members : CaseInsensitiveSet

unfoldable pub empty_ssn : Ssn
empty_ssn = record { sync_type = off; has_star = false; num = pos 0; members = [] }

-- What an even element of the list names.
unfoldable pub name_of : Token → Option Text
name_of (Token.ident name) = some name
name_of (Token.first name) = some name
name_of (Token.any name) = some name
name_of (Token.dquot name) = some name
name_of Token.star = some (codes "*")
name_of _ = none

abbrev pub is_star : Token → Bool
is_star Token.star = true
is_star _ = false

abbrev pub is_comma : Token → Bool
is_comma Token.comma = true
is_comma _ = false

abbrev pub take_name : Token → Bool × CaseInsensitiveSet → Option (Bool × CaseInsensitiveSet)
take_name t (has_star, members) = elim (name_of t) [
  | none ↦ none
  | some name ↦ some (has_star || is_star t, add members name)
]

abbrev pub chain :
    Option (Bool × CaseInsensitiveSet)
    → (Bool × CaseInsensitiveSet → Option (Bool × CaseInsensitiveSet))
    → Option (Bool × CaseInsensitiveSet)
chain none f = none
chain (some found) f = f found

-- The loop over the list: odd elements are commas, but not the last; none is the ValueError.
unfoldable pub listed : List Token → Bool × CaseInsensitiveSet → Option (Bool × CaseInsensitiveSet)
unfolding name_of
listed [] found = some found
listed (t ∷ []) found = take_name t found
listed (t ∷ u ∷ []) found = none
listed (t ∷ u ∷ v ∷ ts) found =
    if is_comma u then chain (take_name t found) (listed (v ∷ ts)) else none

-- `synclist` without its last token, if that is a closing parenthesis.
abbrev pub enclosed : List Token → Option (List Token)
enclosed [] = none
enclosed (Token.parenend ∷ []) = some []
enclosed (t ∷ []) = none
enclosed (t ∷ u ∷ ts) = elim (enclosed (u ∷ ts)) [ none ↦ none | some us ↦ some (t ∷ us) ]

abbrev pub finish : SyncType → ℤ → List Token → Option Ssn
finish sync_type n ts = elim (listed ts (false, [])) [
  | none ↦ none
  | some (has_star, members) ↦
      some (record { sync_type = sync_type; has_star = has_star; num = n; members = members })
]

-- A list in parentheses after a number, or else the whole as a list.
abbrev pub finish_enclosed : SyncType → ℕ → List Token → List Token → Option Ssn
finish_enclosed sync_type n ts all = elim (enclosed ts) [
  | none ↦ finish priority (pos 1) all
  | some us ↦ finish sync_type (pos n) us
]

unfoldable pub parse_tokens : List Token → Option Ssn
unfolding listed empty_ssn
parse_tokens [] = some empty_ssn
parse_tokens (Token.any a ∷ Token.num n ∷ Token.parenstart ∷ ts) =
    finish_enclosed quorum n ts (Token.any a ∷ Token.num n ∷ Token.parenstart ∷ ts)
parse_tokens (Token.first a ∷ Token.num n ∷ Token.parenstart ∷ ts) =
    finish_enclosed priority n ts (Token.first a ∷ Token.num n ∷ Token.parenstart ∷ ts)
parse_tokens (Token.num n ∷ Token.parenstart ∷ ts) =
    finish_enclosed priority n ts (Token.num n ∷ Token.parenstart ∷ ts)
parse_tokens (t ∷ ts) = finish priority (pos 1) (t ∷ ts)

unfoldable pub parse_sync_standby_names : Text → Option Ssn
unfolding parse_tokens tokens
parse_sync_standby_names value = parse_tokens (tokens value)
