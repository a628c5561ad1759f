-- ===== src/Standby/Names.antt =====
-- The tokens of names as `set_synchronous_standby_names` writes them, one by one and in a list.
use area.Common.{
  ℕ, ◌≤◌, ◌==◌, leb, ◌≡◌, refl, sym, subst, ap, ◌∙◌, inl, inr, arith, Bool-cases, and-eq-true, Bool,
  true, false, not, ◌&&◌, ◌||◌, Option, none, some, List, [], ◌∷◌, ◌++◌, every, map, length, take,
  Text, codes, lower, eq_text, if◌then◌else◌,
}
use area.Sync.Names.{is_space}
use area.Standby.Token.{
  Token, is_ident_start, is_digit, is_ident_char, span, keyword, other, next_token,
}
use area.Standby.Parse.{is_plain, quote_ident, quote_standby_name}
use area.Standby.Lexed.{Lexes, Lexes-token, is_end, quote_ident-Lexes, append_assoc}
use area.Standby.Format.{join_names}

abbrev pub is_none : Option Text → Bool
is_none none = true
is_none (some s) = false

-- A keyword of the expression, whole.
abbrev pub is_keyword : Text → Bool
is_keyword name = eq_text (lower name) (codes "first") || eq_text (lower name) (codes "any")

-- A name that is read back: it is written in quotes, or it has only characters of identifiers and does
-- not start with a keyword.
unfoldable pub is_readable : Text → Bool
is_readable name =
    not (is_plain name && not (is_keyword name))
    || (every is_ident_char name
        && is_none (keyword (codes "first") name)
        && is_none (keyword (codes "any") name))

-- The token of a name.
unfoldable pub token_of : Text → Token
token_of name =
    if is_plain name && not (is_keyword name) then Token.ident name else Token.dquot name

pub differs :
    (k d : ℕ)
    → (leb b'a' k && leb k b'z') ≡ true
    → (d == b',' || d == b')') ≡ true
    → eq_text (lower (d ∷ [])) (k ∷ []) ≡ false
unfolding eq_text lower
differs k d a e = ground arith

ends : (d : ℕ) → (d == b',' || d == b')') ≡ true → is_ident_char d ≡ false
unfolding is_ident_char is_ident_start is_digit
ends d e = ground arith

not_space : (c : ℕ) → is_ident_start c ≡ true → is_space c ≡ false
unfolding is_space is_ident_start
not_space c h = ground arith

no_keyword :
    (ks name rest : Text)
    → every (λ k. leb b'a' k && leb k b'z') ks ≡ true
    → keyword ks name ≡ none
    → is_end rest ≡ true
    → keyword ks (name ++ rest) ≡ none
unfolding keyword
no_keyword [] name rest a h e = cc
no_keyword (k ∷ ks) [] [] a h e = refl
no_keyword (k ∷ ks) [] (d ∷ rest) a h e =
    rw
      (differs k d
        (and-eq-true (leb b'a' k && leb k b'z') (every (λ k. leb b'a' k && leb k b'z') ks) a).0 e)
      refl
no_keyword (k ∷ ks) (c ∷ name) rest a h e = elim (Bool-cases (eq_text (lower (c ∷ [])) (k ∷ []))) [
  | inl t ↦ rw t (
      no_keyword ks name rest
        (and-eq-true (leb b'a' k && leb k b'z') (every (λ k. leb b'a' k && leb k b'z') ks) a).1
        (rw t at h) e)
  | inr t ↦ rw t refl
]

span-ident :
    (s rest : Text)
    → every is_ident_char s ≡ true
    → is_end rest ≡ true
    → span is_ident_char (s ++ rest) ≡ (s, rest)
unfolding span
span-ident [] [] h e = refl
span-ident [] (d ∷ rest) h e = rw (ends d e) refl
span-ident (c ∷ s) rest h e =
    let (a, b) = and-eq-true (is_ident_char c) (every is_ident_char s) h in
    rw (a, span-ident s rest b e) refl

abbrev pick_token : Option Text → Option Text → ℕ → Text → Option Token × Text
pick_token f a c s = elim f [
  | some rest ↦ (some (Token.first (take 5 (c ∷ s))), rest)
  | none ↦ elim a [ some rest ↦ (some (Token.any (take 3 (c ∷ s))), rest) | none ↦ other c s ]
]

next_token-pick :
    (c : ℕ) (s : Text)
    → next_token c s
      ≡ pick_token (keyword (codes "first") (c ∷ s)) (keyword (codes "any") (c ∷ s)) c s
unfolding next_token
next_token-pick c s = refl

-- What is not a keyword.
pub next_token-other :
    (c : ℕ) (s : Text)
    → keyword (codes "first") (c ∷ s) ≡ none
    → keyword (codes "any") (c ∷ s) ≡ none
    → next_token c s ≡ other c s
next_token-other c s f a =
    next_token-pick c s
    ∙ ap (λ f. pick_token f (keyword (codes "any") (c ∷ s)) c s) f
    ∙ ap (λ a. pick_token none a c s) a

abbrev as_ident : ℕ → Text × Text → Option Token × Text
as_ident c (name, rest) = (some (Token.ident (c ∷ name)), rest)

other-ident :
    (c : ℕ) (s : Text) → is_ident_start c ≡ true → other c s ≡ as_ident c (span is_ident_char s)
unfolding other
other-ident c s h = rw (not_space c h, h) refl

pub length-rest : (s rest : Text) → length rest ≤ length (s ++ rest)
length-rest [] rest = omega arith
length-rest (c ∷ s) rest = omega (arith, length-rest s rest)

ident-Lexes :
    (c : ℕ) (s rest : Text) (ts : List Token)
    → is_ident_start c ≡ true
    → every is_ident_char s ≡ true
    → keyword (codes "first") (c ∷ s) ≡ none
    → keyword (codes "any") (c ∷ s) ≡ none
    → is_end rest ≡ true
    → Lexes rest ts
    → Lexes (c ∷ (s ++ rest)) (Token.ident (c ∷ s) ∷ ts)
ident-Lexes c s rest ts h e f a r k =
    Lexes-token c (s ++ rest) (Token.ident (c ∷ s)) rest ts
      (next_token-other c (s ++ rest) (no_keyword (codes "first") (c ∷ s) rest refl f r)
          (no_keyword (codes "any") (c ∷ s) rest refl a r)
        ∙ other-ident c (s ++ rest) h
        ∙ ap (as_ident c) (span-ident s rest e r))
      (length-rest s rest) k

none_of : (o : Option Text) → is_none o ≡ true → o ≡ none
none_of none h = refl
none_of (some s) h = cc

quote_standby_name-if :
    (name : Text)
    → quote_standby_name name
      ≡ (if is_plain name && not (is_keyword name) then name else quote_ident name)
unfolding quote_standby_name
quote_standby_name-if name = refl

plain-Lexes :
    (name rest : Text) (ts : List Token)
    → is_plain name ≡ true
    → (every is_ident_char name
        && is_none (keyword (codes "first") name)
        && is_none (keyword (codes "any") name))
      ≡ true
    → is_end rest ≡ true
    → Lexes rest ts
    → Lexes (name ++ rest) (Token.ident name ∷ ts)
unfolding is_plain
plain-Lexes [] rest ts p h r k = cc
plain-Lexes (c ∷ s) rest ts p h r k =
    let (a, b, f) =
      three (every is_ident_char (c ∷ s)) (is_none (keyword (codes "first") (c ∷ s)))
        (is_none (keyword (codes "any") (c ∷ s))) h in
    ident-Lexes c s rest ts (and-eq-true (is_ident_start c) _ p).0
      (and-eq-true (is_ident_char c) (every is_ident_char s) a).1
      (none_of (keyword (codes "first") (c ∷ s)) b) (none_of (keyword (codes "any") (c ∷ s)) f) r k
  where
    three : (a b c : Bool) → (a && b && c) ≡ true → (a ≡ true) × (b ≡ true) × (c ≡ true)
    three a b c h = ground arith

-- A readable name.
pub quote_standby_name-Lexes :
    (name rest : Text) (ts : List Token)
    → is_readable name ≡ true
    → is_end rest ≡ true
    → Lexes rest ts
    → Lexes (quote_standby_name name ++ rest) (token_of name ∷ ts)
unfolding is_readable token_of
quote_standby_name-Lexes name rest ts h r k =
    subst (λ s. Lexes (s ++ rest) (token_of name ∷ ts)) (sym (quote_standby_name-if name))
      (elim (Bool-cases (is_plain name && not (is_keyword name))) [
        | inl e ↦ rw e (
            plain-Lexes name rest ts (and-eq-true (is_plain name) (not (is_keyword name)) e).0
              (negated (is_plain name && not (is_keyword name)) _ e h) r k)
        | inr e ↦ rw e (quote_ident-Lexes name rest ts r k)
      ])
  where
    negated : (a b : Bool) → a ≡ true → (not a || b) ≡ true → b ≡ true
    negated a b e h = ground arith

-- Tokens with commas between them, before others.
abbrev pub with_commas : List Token → List Token → List Token
with_commas [] ts = ts
with_commas (t ∷ []) ts = t ∷ ts
with_commas (t ∷ u ∷ us) ts = t ∷ Token.comma ∷ with_commas (u ∷ us) ts

comma-token : (s : Text) → next_token b',' s ≡ (some Token.comma, s)
unfolding next_token eq_text lower
comma-token s = refl

comma-Lexes : (s : Text) (ts : List Token) → Lexes s ts → Lexes (b',' ∷ s) (Token.comma ∷ ts)
comma-Lexes s ts k = Lexes-token b',' s Token.comma s ts (comma-token s) (omega arith) k

pub join_names-Lexes :
    (names : List Text) (rest : Text) (ts : List Token)
    → every is_readable names ≡ true
    → is_end rest ≡ true
    → Lexes rest ts
    → Lexes
        (join_names (map quote_standby_name names) ++ rest)
        (with_commas (map token_of names) ts)
unfolding join_names
join_names-Lexes [] rest ts h r k = k
join_names-Lexes (name ∷ []) rest ts h r k =
    quote_standby_name-Lexes name rest ts (and-eq-true (is_readable name) true h).0 r k
join_names-Lexes (name ∷ more ∷ names) rest ts h r k =
    let (a, b) = and-eq-true (is_readable name) (every is_readable (more ∷ names)) h in
    let later = join_names (map quote_standby_name (more ∷ names)) in
    subst (λ s. Lexes s (with_commas (map token_of (name ∷ more ∷ names)) ts))
      (sym (append_assoc (quote_standby_name name) (b',' ∷ later) rest))
      (quote_standby_name-Lexes name (b',' ∷ (later ++ rest)) _ a refl
        (comma-Lexes (later ++ rest) _ (join_names-Lexes (more ∷ names) rest ts b r k)))
