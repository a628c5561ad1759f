-- ===== src/Standby/Token.antt =====
-- The tokens of `synchronous_standby_names`, as the expression SYNC_REP_PARSER_RE finds them.
use area.Common.{
  ℕ, zero, suc, ◌+◌, ◌-◌, ◌*◌, ◌==◌, leb, Bool, ◌&&◌, ◌||◌, Option, none, some, List, [], ◌∷◌,
  length, take, Text, codes, lower, eq_text, if◌then◌else◌,
}
use area.Sync.Names.{is_space}

pub data Token : Type 0 where
  first any ident dquot : Text → Token
  num : ℕ → Token
  star comma parenstart parenend : Token
  junk : ℕ → Token

abbrev quote : ℕ
quote = b'"'

-- A letter or an underscore.
unfoldable pub is_ident_start : ℕ → Bool
is_ident_start c = (leb b'A' c && leb c b'Z') || (leb b'a' c && leb c b'z') || c == b'_'

unfoldable pub is_digit : ℕ → Bool
is_digit c = leb b'0' c && leb c b'9'

unfoldable pub is_ident_char : ℕ → Bool
unfolding is_ident_start is_digit
is_ident_char c = is_ident_start c || is_digit c || c == b'$'

-- The longest prefix of such characters, and the rest.
unfoldable pub span : (ℕ → Bool) → Text → Text × Text
span p [] = ([], [])
span p (c ∷ s) = let rest = span p s in if p c then (c ∷ rest.0, rest.1) else ([], c ∷ s)

-- After the opening quote: a closing quote that is doubled belongs to the name, unless no other quote
-- closes it.
unfoldable pub quoted : Text → Option (Text × Text)
quoted [] = none
quoted (c ∷ []) = if c == quote then some ([], []) else none
quoted (c ∷ d ∷ s) =
    let rest = quoted s in
    let rest' = quoted (d ∷ s) in
    if c == quote
    then if d == quote
      then elim rest [ none ↦ some ([], d ∷ s) | some (name, s') ↦ some (quote ∷ name, s') ]
      else some ([], d ∷ s)
    else elim rest' [ none ↦ none | some (name, s') ↦ some (c ∷ name, s') ]

-- `int(digits)`
unfoldable pub value_of : ℕ → Text → ℕ
value_of n [] = n
value_of n (c ∷ s) = value_of (10 * n + (c - b'0')) s

-- The letters of a keyword at the start of a text, whatever their case: what follows them.
unfoldable pub keyword : Text → Text → Option Text
keyword [] s = some s
keyword (k ∷ ks) [] = none
keyword (k ∷ ks) (c ∷ s) =
    let rest = keyword ks s in if eq_text (lower (c ∷ [])) (k ∷ []) then rest else none

-- One token that starts with a character which no keyword starts at; `none` is white space.
unfoldable pub other : ℕ → Text → Option Token × Text
unfolding is_space is_ident_start is_digit span quoted value_of
other c s =
    if is_space c
    then (none, (span is_space s).1)
    else if is_ident_start c
    then (let (name, rest) = span is_ident_char s in (some (ident (c ∷ name)), rest))
    else if c == quote
    then elim (quoted s) [
      | none ↦ (some (junk c), s)
      | some (name, rest) ↦ (some (dquot name), rest)
    ]
    else if c == b'*'
    then (some star, s)
    else if is_digit c
    then (let (digits, rest) = span is_digit (c ∷ s) in (some (num (value_of 0 digits)), rest))
    else if c == b','
    then (some comma, s)
    else if c == b'('
    then (some parenstart, s)
    else if c == b')'
    then (some parenend, s)
    else (some (junk c), s)

-- The keywords are tried first, also where they are only the start of a name.
unfoldable pub next_token : ℕ → Text → Option Token × Text
unfolding keyword other
next_token c s = elim (keyword (codes "first") (c ∷ s)) [
  | some rest ↦ (some (first (take 5 (c ∷ s))), rest)
  | none ↦ elim (keyword (codes "any") (c ∷ s)) [
    | some rest ↦ (some (any (take 3 (c ∷ s))), rest)
    | none ↦ other c s
  ]
]

-- All tokens, on one step for each character.
unfoldable pub tokens_on : ℕ → Text → List Token
unfolding next_token
tokens_on zero s = []
tokens_on (suc n) [] = []
tokens_on (suc n) (c ∷ s) =
    let rest = tokens_on n (next_token c s).1 in
    elim (next_token c s).0 [ none ↦ rest | some t ↦ t ∷ rest ]

unfoldable pub tokens : Text → List Token
unfolding tokens_on
tokens value = tokens_on (length value) value
