-- ===== src/Standby/Lexed.antt =====
-- Texts whose tokens are known: a name in quotes, a plain name, a number and single characters.
use area.Common.{
  ℕ, zero, suc, ◌≤◌, ◌==◌, ◌≡◌, refl, sym, subst, ap, ◌∙◌, inl, inr, arith, Bool-cases, Bool, true,
  false, ◌||◌, Option, none, some, List, [], ◌∷◌, ◌++◌, length, Text, lower, eq_text,
}
use area.Sync.Names.{is_space}
use area.Standby.Token.{Token, is_ident_start, quoted, keyword, other, next_token, tokens_on}
use area.Standby.Parse.{double_quotes, quote_ident}

-- The tokens of a text, on any steps that are enough.
abbrev pub Lexes : Text → List Token → Type 0
Lexes s ts = (n : ℕ) → length s ≤ n → tokens_on n s ≡ ts

abbrev onto : ℕ → Option Token × Text → List Token
onto n x = elim x.0 [ none ↦ tokens_on n x.1 | some t ↦ t ∷ tokens_on n x.1 ]

tokens_on-suc : (n c : ℕ) (s : Text) → tokens_on (suc n) (c ∷ s) ≡ onto n (next_token c s)
unfolding tokens_on
tokens_on-suc n c s = refl

pub Lexes-empty : Lexes [] []
unfolding tokens_on
Lexes-empty zero h = refl
Lexes-empty (suc n) h = refl

-- A token in front of a text.
pub Lexes-token :
    (c : ℕ) (s : Text) (t : Token) (rest : Text) (ts : List Token)
    → next_token c s ≡ (some t, rest)
    → length rest ≤ length s
    → Lexes rest ts
    → Lexes (c ∷ s) (t ∷ ts)
Lexes-token c s t rest ts e l h zero k = absurd (omega arith)
Lexes-token c s t rest ts e l h (suc n) k =
    tokens_on-suc n c s ∙ ap (onto n) e ∙ ap (λ us. t ∷ us) (h n (omega arith))

pub Lexes-space :
    (c : ℕ) (s rest : Text) (ts : List Token)
    → next_token c s ≡ (none, rest)
    → length rest ≤ length s
    → Lexes rest ts
    → Lexes (c ∷ s) ts
Lexes-space c s rest ts e l h zero k = absurd (omega arith)
Lexes-space c s rest ts e l h (suc n) k = tokens_on-suc n c s ∙ ap (onto n) e ∙ h n (omega arith)

quoted-char :
    (c : ℕ) (s name rest : Text)
    → (c == b'"') ≡ false
    → quoted s ≡ some (name, rest)
    → quoted (c ∷ s) ≡ some (c ∷ name, rest)
unfolding quoted
quoted-char c [] name rest h e = cc
quoted-char c (d ∷ s) name rest h e = rw (h, e) refl

quoted-quote :
    (s name rest : Text)
    → quoted s ≡ some (name, rest)
    → quoted (b'"' ∷ b'"' ∷ s) ≡ some (b'"' ∷ name, rest)
unfolding quoted
quoted-quote s name rest e = rw e refl

-- What may follow a name.
abbrev pub is_end : Text → Bool
is_end [] = true
is_end (c ∷ s) = c == b',' || c == b')'

quoted-end : (rest : Text) → is_end rest ≡ true → quoted (b'"' ∷ rest) ≡ some ([], rest)
unfolding quoted
quoted-end [] h = refl
quoted-end (d ∷ s) h = rw (no_quote d h) refl
  where
    no_quote : (d : ℕ) → (d == b',' || d == b')') ≡ true → (d == b'"') ≡ false
    no_quote d h = ground arith

quoted-double_quotes :
    (name rest : Text)
    → is_end rest ≡ true
    → quoted (double_quotes name ++ b'"' ∷ rest) ≡ some (name, rest)
quoted-double_quotes [] rest h = quoted-end rest h
quoted-double_quotes (c ∷ name) rest h = elim (Bool-cases (c == b'"')) [
  | inl e ↦
      rw (e, same c e)
        (quoted-quote (double_quotes name ++ b'"' ∷ rest) name rest
          (quoted-double_quotes name rest h))
  | inr e ↦ rw e (
      quoted-char c (double_quotes name ++ b'"' ∷ rest) name rest e
        (quoted-double_quotes name rest h))
]
  where
    same : (c : ℕ) → (c == b'"') ≡ true → c ≡ b'"'
    same c e = ground arith

length-double_quotes : (name rest : Text) → length rest ≤ length (double_quotes name ++ b'"' ∷ rest)
length-double_quotes [] rest = omega arith
length-double_quotes (c ∷ name) rest = elim (Bool-cases (c == b'"')) [
  | inl e ↦ rw e (omega (arith, length-double_quotes name rest))
  | inr e ↦ rw e (omega (arith, length-double_quotes name rest))
]

next_token-quote :
    (s name rest : Text)
    → quoted s ≡ some (name, rest)
    → next_token b'"' s ≡ (some (Token.dquot name), rest)
unfolding next_token keyword eq_text lower other is_space is_ident_start
next_token-quote s name rest e = rw e refl

pub append_assoc : (s t u : Text) → (s ++ t) ++ u ≡ s ++ (t ++ u)
append_assoc [] t u = refl
append_assoc (c ∷ s) t u = ap (λ r. c ∷ r) (append_assoc s t u)

-- A name in quotes.
pub quote_ident-Lexes :
    (name rest : Text) (ts : List Token)
    → is_end rest ≡ true
    → Lexes rest ts
    → Lexes (quote_ident name ++ rest) (Token.dquot name ∷ ts)
unfolding quote_ident
quote_ident-Lexes name rest ts h k =
    subst (λ s. Lexes (b'"' ∷ s) (Token.dquot name ∷ ts))
      (sym (append_assoc (double_quotes name) (b'"' ∷ []) rest))
      (Lexes-token b'"' (double_quotes name ++ b'"' ∷ rest) (Token.dquot name) rest ts
        (next_token-quote (double_quotes name ++ b'"' ∷ rest) name rest
          (quoted-double_quotes name rest h))
        (length-double_quotes name rest) k)
