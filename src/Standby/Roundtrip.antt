-- ===== src/Standby/Roundtrip.antt =====
-- The text `ANY n (names)` is parsed.
use area.Common.{
  ℕ, pos, ◌≡◌, refl, sym, ap, ◌∙◌, arith, Bool, true, false, not, ◌&&◌, Option, none, some, List,
  [], ◌∷◌, ◌++◌, every, map, length, Text, codes, lower, eq_text, if◌then◌else◌,
}
use area.Collections.{CaseInsensitiveSet, add}
use area.Sync.Names.{is_space}
use area.Standby.Token.{Token, next_token, tokens}
use area.Standby.Parse.{
  SyncType, Ssn, quote_standby_name, name_of, take_name, chain, listed, enclosed, finish,
  finish_enclosed, parse_tokens, parse_sync_standby_names, is_plain,
}
use area.Standby.Lexed.{Lexes, Lexes-empty, Lexes-token}
use area.Standby.Format.{join_names, format_int}
use area.Standby.Names.{is_keyword, is_readable, token_of, with_commas, join_names-Lexes}
use area.Standby.Read.{format_int-Lexes, space-Lexes, space-format_int}

-- The set of some names.
abbrev pub add_all : CaseInsensitiveSet → List Text → CaseInsensitiveSet
add_all members [] = members
add_all members (name ∷ names) = add_all (add members name) names

pub take_name-token_of :
    (name : Text) (members : CaseInsensitiveSet)
    → take_name (token_of name) (false, members) ≡ some (false, add members name)
unfolding token_of name_of
take_name-token_of name members = by_case (is_plain name && not (is_keyword name))
  where
    by_case :
        (b : Bool)
        → take_name (if b then Token.ident name else Token.dquot name) (false, members)
          ≡ some (false, add members name)
    by_case true = refl
    by_case false = refl

abbrev after_first : List Token → List Token → List Token
after_first [] ts = ts
after_first (u ∷ us) ts = Token.comma ∷ with_commas (u ∷ us) ts

with_commas-first :
    (t : Token) (us ts : List Token) → with_commas (t ∷ us) ts ≡ t ∷ after_first us ts
with_commas-first t [] ts = refl
with_commas-first t (u ∷ us) ts = refl

abbrev found : CaseInsensitiveSet → Bool × CaseInsensitiveSet
found members = (false, members)

listed-cons :
    (t v : Token) (ts : List Token) (x : Bool × CaseInsensitiveSet)
    → listed (t ∷ Token.comma ∷ v ∷ ts) x ≡ chain (take_name t x) (listed (v ∷ ts))
unfolding listed
listed-cons t v ts x = refl

pub listed-one : (t : Token) (x : Bool × CaseInsensitiveSet) → listed (t ∷ []) x ≡ take_name t x
unfolding listed
listed-one t x = refl

listed-names :
    (name : Text) (names : List Text) (members : CaseInsensitiveSet)
    → listed (with_commas (map token_of (name ∷ names)) []) (found members)
      ≡ some (false, add_all members (name ∷ names))
listed-names name [] members =
    listed-one (token_of name) (found members) ∙ take_name-token_of name members
listed-names name (more ∷ names) members =
    ap (λ ts. listed (token_of name ∷ Token.comma ∷ ts) (found members))
      (with_commas-first (token_of more) (map token_of names) [])
    ∙ listed-cons (token_of name) (token_of more) (after_first (map token_of names) [])
        (found members)
    ∙ ap (λ x. chain x (listed (token_of more ∷ after_first (map token_of names) [])))
        (take_name-token_of name members)
    ∙ ap (λ ts. listed ts (found (add members name)))
        (sym (with_commas-first (token_of more) (map token_of names) []))
    ∙ listed-names more names (add members name)

enclosed-cons :
    (t : Token) (ts us : List Token) → enclosed ts ≡ some us → enclosed (t ∷ ts) ≡ some (t ∷ us)
enclosed-cons t [] us h = cc
enclosed-cons (Token.first a) (u ∷ ts) us h = rw h refl
enclosed-cons (Token.any a) (u ∷ ts) us h = rw h refl
enclosed-cons (Token.ident a) (u ∷ ts) us h = rw h refl
enclosed-cons (Token.dquot a) (u ∷ ts) us h = rw h refl
enclosed-cons (Token.num n) (u ∷ ts) us h = rw h refl
enclosed-cons Token.star (u ∷ ts) us h = rw h refl
enclosed-cons Token.comma (u ∷ ts) us h = rw h refl
enclosed-cons Token.parenstart (u ∷ ts) us h = rw h refl
enclosed-cons Token.parenend (u ∷ ts) us h = rw h refl
enclosed-cons (Token.junk c) (u ∷ ts) us h = rw h refl

enclosed-with_commas :
    (ts : List Token) → enclosed (with_commas ts (Token.parenend ∷ [])) ≡ some (with_commas ts [])
enclosed-with_commas [] = refl
enclosed-with_commas (t ∷ []) = enclosed-cons t (Token.parenend ∷ []) [] refl
enclosed-with_commas (t ∷ u ∷ us) =
    enclosed-cons t (Token.comma ∷ with_commas (u ∷ us) (Token.parenend ∷ []))
      (Token.comma ∷ with_commas (u ∷ us) [])
      (enclosed-cons Token.comma (with_commas (u ∷ us) (Token.parenend ∷ []))
        (with_commas (u ∷ us) []) (enclosed-with_commas (u ∷ us)))

parse_tokens-any :
    (a : Text) (n : ℕ) (ts : List Token)
    → parse_tokens (Token.any a ∷ Token.num n ∷ Token.parenstart ∷ ts)
      ≡ finish_enclosed SyncType.quorum n ts (Token.any a ∷ Token.num n ∷ Token.parenstart ∷ ts)
unfolding parse_tokens
parse_tokens-any a n ts = refl

-- What is found in a list, as a value.
abbrev pub of_found : SyncType → ℕ → Option (Bool × CaseInsensitiveSet) → Option Ssn
of_found kind n x = elim x [
  | none ↦ none
  | some (has_star, members) ↦
      some (record { sync_type = kind; has_star = has_star; num = pos n; members = members })
]

abbrev of_enclosed : SyncType → ℕ → List Token → Option (List Token) → Option Ssn
of_enclosed kind n all x = elim x [
  | none ↦ finish SyncType.priority (pos 1) all
  | some us ↦ of_found kind n (listed us (found []))
]

finish_enclosed-of :
    (kind : SyncType) (n : ℕ) (ts all : List Token)
    → finish_enclosed kind n ts all ≡ of_enclosed kind n all (enclosed ts)
finish_enclosed-of kind n ts all = refl

abbrev pub ssn_of : SyncType → ℕ → List Text → Ssn
ssn_of kind n names = record {
  sync_type = kind;
  has_star = false;
  num = pos n;
  members = add_all [] names;
}

abbrev pub quorum_of : ℕ → List Text → Ssn
quorum_of = ssn_of SyncType.quorum

-- A list of names in parentheses.
pub finish-names :
    (kind : SyncType) (n : ℕ) (name : Text) (names : List Text) (all : List Token)
    → finish_enclosed kind n (with_commas (map token_of (name ∷ names)) (Token.parenend ∷ [])) all
      ≡ some (ssn_of kind n (name ∷ names))
finish-names kind n name names all =
    let ts = map token_of (name ∷ names) in
    finish_enclosed-of kind n (with_commas ts (Token.parenend ∷ [])) all
    ∙ ap (of_enclosed kind n all) (enclosed-with_commas ts)
    ∙ ap (of_found kind n) (listed-names name names [])

parse_tokens-names :
    (n : ℕ) (name : Text) (names : List Text)
    → parse_tokens (
        Token.any (codes "ANY")
        ∷ Token.num n
        ∷ Token.parenstart
        ∷ with_commas (map token_of (name ∷ names)) (Token.parenend ∷ []))
      ≡ some (quorum_of n (name ∷ names))
parse_tokens-names n name names =
    let rest = with_commas (map token_of (name ∷ names)) (Token.parenend ∷ []) in
    parse_tokens-any (codes "ANY") n rest
    ∙ finish-names SyncType.quorum n name names
        (Token.any (codes "ANY") ∷ Token.num n ∷ Token.parenstart ∷ rest)

any-token : (s : Text) → next_token b'A' (b'N' ∷ b'Y' ∷ s) ≡ (some (Token.any (codes "ANY")), s)
unfolding next_token eq_text lower
any-token s = refl

parenstart-token : (s : Text) → next_token b'(' s ≡ (some Token.parenstart, s)
unfolding next_token eq_text lower
parenstart-token s = refl

parenend-Lexes : Lexes (codes ")") (Token.parenend ∷ [])
unfolding next_token eq_text lower
parenend-Lexes = Lexes-token b')' [] Token.parenend [] [] refl (omega arith) Lexes-empty

not_space : is_space b'(' ≡ false
unfolding is_space
not_space = refl

-- `ANY n (names)`
abbrev pub any_text : ℕ → List Text → Text
any_text n names =
    codes "ANY "
    ++ (format_int (pos n)
        ++ (codes " (" ++ (join_names (map quote_standby_name names) ++ codes ")")))

-- `n (names)`
pub num_names-Lexes :
    (n : ℕ) (names : List Text)
    → every is_readable names ≡ true
    → Lexes
        (format_int (pos n)
          ++ (codes " (" ++ (join_names (map quote_standby_name names) ++ codes ")")))
        (Token.num n ∷ Token.parenstart ∷ with_commas (map token_of names) (Token.parenend ∷ []))
num_names-Lexes n names h =
    let inner = join_names (map quote_standby_name names) ++ codes ")" in
    let ts = with_commas (map token_of names) (Token.parenend ∷ []) in
    format_int-Lexes n (b'(' ∷ inner) (Token.parenstart ∷ ts) (
      space-Lexes b'(' inner (Token.parenstart ∷ ts) not_space (
        Lexes-token b'(' inner Token.parenstart inner ts (parenstart-token inner) (omega arith)
          (join_names-Lexes names (codes ")") (Token.parenend ∷ []) h refl parenend-Lexes)))

any_text-Lexes :
    (n : ℕ) (names : List Text)
    → every is_readable names ≡ true
    → Lexes (any_text n names) (
        Token.any (codes "ANY")
        ∷ Token.num n
        ∷ Token.parenstart
        ∷ with_commas (map token_of names) (Token.parenend ∷ []))
any_text-Lexes n names h =
    let tail = codes " (" ++ (join_names (map quote_standby_name names) ++ codes ")") in
    let ts =
      Token.num n ∷ Token.parenstart ∷ with_commas (map token_of names) (Token.parenend ∷ []) in
    Lexes-token b'A' (b'N' ∷ b'Y' ∷ b' ' ∷ (format_int (pos n) ++ tail)) (Token.any (codes "ANY"))
      (b' ' ∷ (format_int (pos n) ++ tail)) ts (any-token (b' ' ∷ (format_int (pos n) ++ tail)))
      (omega arith) (space-format_int n tail ts (num_names-Lexes n names h))

pub parse-any_text :
    (n : ℕ) (name : Text) (names : List Text)
    → every is_readable (name ∷ names) ≡ true
    → parse_sync_standby_names (any_text n (name ∷ names)) ≡ some (quorum_of n (name ∷ names))
unfolding parse_sync_standby_names tokens
parse-any_text n name names h =
    ap parse_tokens
      (any_text-Lexes n (name ∷ names) h (length (any_text n (name ∷ names))) (omega arith))
    ∙ parse_tokens-names n name names
