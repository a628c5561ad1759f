-- ===== src/Standby/Keyword.antt =====
-- Names that start with a keyword of `synchronous_standby_names`.
use area.Common.{
  ℕ, suc, ◌≡◌, refl, arith, Bool, true, false, Option, none, some, List, [], ◌∷◌, ◌++◌, length,
  take, Text, codes, eq_text, lower,
}
use area.Sync.Names.{is_space}
use area.Standby.Token.{Token, is_ident_start, keyword, other, next_token, tokens_on, tokens}
use area.Standby.Parse.{
  is_plain, quote_standby_name, listed, parse_tokens, parse_sync_standby_names,
}

-- A token that is neither a number nor a comma.
abbrev is_word : Option Token → Bool
is_word (some (Token.first _)) = true
is_word (some (Token.any _)) = true
is_word (some (Token.ident _)) = true
is_word _ = false

not_space : (c : ℕ) → is_ident_start c ≡ true → is_space c ≡ false
unfolding is_space is_ident_start
not_space c h = ground arith

other-word : (c : ℕ) (s : Text) → is_ident_start c ≡ true → is_word (other c s).0 ≡ true
unfolding other
other-word c s h = rw (not_space c h, h) refl

next_token-word : (c : ℕ) (s : Text) → is_ident_start c ≡ true → is_word (next_token c s).0 ≡ true
unfolding next_token
next_token-word c s h = by_case (keyword (codes "first") (c ∷ s)) (keyword (codes "any") (c ∷ s))
  where
    by_case :
        (f a : Option Text)
        → is_word
            (elim f as (λ _. Option Token × Text) [
              | some rest ↦ (some (Token.first (take 5 (c ∷ s))), rest)
              | none ↦ elim a as (λ _. Option Token × Text) [
                | some rest ↦ (some (Token.any (take 3 (c ∷ s))), rest)
                | none ↦ other c s
              ]
            ]).0
          ≡ true
    by_case (some r) a = refl
    by_case none (some r) = refl
    by_case none none = other-word c s h

-- A keyword before a word is not parsed.
parse_tokens-any :
    (a : Text) (u : Token) (ts : List Token)
    → is_word (some u) ≡ true
    → parse_tokens (Token.any a ∷ u ∷ ts) ≡ none
unfolding parse_tokens listed
parse_tokens-any a (Token.first b) [] h = refl
parse_tokens-any a (Token.first b) (v ∷ ts) h = refl
parse_tokens-any a (Token.any b) [] h = refl
parse_tokens-any a (Token.any b) (v ∷ ts) h = refl
parse_tokens-any a (Token.ident b) [] h = refl
parse_tokens-any a (Token.ident b) (v ∷ ts) h = refl
parse_tokens-any a (Token.dquot b) ts h = cc
parse_tokens-any a (Token.num n) ts h = cc
parse_tokens-any a Token.star ts h = cc
parse_tokens-any a Token.comma ts h = cc
parse_tokens-any a Token.parenstart ts h = cc
parse_tokens-any a Token.parenend ts h = cc
parse_tokens-any a (Token.junk c) ts h = cc

parse-any :
    (a : Text) (o : Option Token) (ts : List Token)
    → is_word o ≡ true
    → parse_tokens (Token.any a ∷ (elim o as (λ _. List Token) [ none ↦ ts | some t ↦ t ∷ ts ]))
      ≡ none
parse-any a none ts h = cc
parse-any a (some t) ts h = parse_tokens-any a t ts h

-- A name of letters, digits, underscores and dollar signs that is longer than `any`, starts with it and
-- goes on with a letter or an underscore is written without quotes, and is not parsed when it is read.
pub parse-quote_standby_name :
    (c : ℕ) (s : Text)
    → is_ident_start c ≡ true
    → is_plain (codes "any" ++ c ∷ s) ≡ true
    → parse_sync_standby_names (quote_standby_name (codes "any" ++ c ∷ s)) ≡ none
unfolding parse_sync_standby_names quote_standby_name tokens tokens_on next_token keyword eq_text
    lower
parse-quote_standby_name c s h p = rw p (
    parse-any (codes "any") (next_token c s).0 (tokens_on (suc (suc (length s))) (next_token c s).1)
      (next_token-word c s h))
