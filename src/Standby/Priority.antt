-- ===== src/Standby/Priority.antt =====
-- The values of `synchronous_standby_names` without quorum commit are read back: a name, and a number
-- with several names.
use area.Common.{
  ℕ, pos, ◌≡◌, refl, ap, ◌∙◌, arith, subst, true, false, not, ◌&&◌, Bool, some, List, [], ◌∷◌, ◌++◌,
  every, map, length, Text, codes, if◌then◌else◌,
}
use area.Standby.Token.{Token, tokens}
use area.Standby.Parse.{
  SyncType, quote_standby_name, finish, finish_enclosed, parse_tokens, parse_sync_standby_names,
  is_plain,
}
use area.Standby.Lexed.{Lexes, Lexes-empty}
use area.Standby.Format.{join_names, format_int}
use area.Standby.Names.{is_keyword, is_readable, token_of, with_commas, quote_standby_name-Lexes}
use area.Standby.Roundtrip.{
  ssn_of, finish-names, num_names-Lexes, take_name-token_of, listed-one, of_found,
}

abbrev pub num_text : ℕ → List Text → Text
num_text n names =
    format_int (pos n) ++ (codes " (" ++ (join_names (map quote_standby_name names) ++ codes ")"))

parse_tokens-num :
    (n : ℕ) (ts : List Token)
    → parse_tokens (Token.num n ∷ Token.parenstart ∷ ts)
      ≡ finish_enclosed SyncType.priority n ts (Token.num n ∷ Token.parenstart ∷ ts)
unfolding parse_tokens
parse_tokens-num n ts = refl

pub parse-num_text :
    (n : ℕ) (name : Text) (names : List Text)
    → every is_readable (name ∷ names) ≡ true
    → parse_sync_standby_names (num_text n (name ∷ names))
      ≡ some (ssn_of SyncType.priority n (name ∷ names))
unfolding parse_sync_standby_names tokens
parse-num_text n name names h =
    let ts = with_commas (map token_of (name ∷ names)) (Token.parenend ∷ []) in
    ap parse_tokens
      (num_names-Lexes n (name ∷ names) h (length (num_text n (name ∷ names))) (omega arith))
    ∙ parse_tokens-num n ts
    ∙ finish-names SyncType.priority n name names (Token.num n ∷ Token.parenstart ∷ ts)

parse_tokens-token_of :
    (name : Text)
    → parse_tokens (token_of name ∷ []) ≡ finish SyncType.priority (pos 1) (token_of name ∷ [])
unfolding token_of parse_tokens
parse_tokens-token_of name = by_case (is_plain name && not (is_keyword name))
  where
    by_case :
        (b : Bool)
        → parse_tokens ((if b then Token.ident name else Token.dquot name) ∷ [])
          ≡ finish SyncType.priority
              (pos 1)
              ((if b then Token.ident name else Token.dquot name) ∷ [])
    by_case true = refl
    by_case false = refl

pub parse-name :
    (name : Text)
    → is_readable name ≡ true
    → parse_sync_standby_names (quote_standby_name name)
      ≡ some (ssn_of SyncType.priority 1 (name ∷ []))
unfolding parse_sync_standby_names tokens
parse-name name h =
    ap parse_tokens (lexed (length (quote_standby_name name)) (omega arith))
    ∙ parse_tokens-token_of name
    ∙ ap (of_found SyncType.priority 1)
        (listed-one (token_of name) (false, []) ∙ take_name-token_of name [])
  where
    append_nil : (s : Text) → s ++ [] ≡ s
    append_nil [] = refl
    append_nil (c ∷ s) = ap (λ r. c ∷ r) (append_nil s)

    lexed : Lexes (quote_standby_name name) (token_of name ∷ [])
    lexed =
        subst (λ s. Lexes s (token_of name ∷ [])) (append_nil (quote_standby_name name))
          (quote_standby_name-Lexes name [] [] h refl Lexes-empty)
