-- ===== src/Standby/Read.antt =====
-- The token of a number that is written.
use area.Common.{
  ℕ, ◌+◌, ◌-◌, ◌*◌, ◌==◌, ltb, leb, pos, ◌≡◌, refl, subst, ap, ◌∙◌, arith, and-eq-true, true, false,
  ◌&&◌, Option, none, some, List, [], ◌∷◌, ◌++◌, every, map, is_empty, Text, codes, lower, eq_text,
  digits, digits-lt, value-digits, filled-digits, value_onto,
}
use area.Sync.Names.{is_space}
use area.Standby.Token.{Token, is_ident_start, is_digit, span, value_of, keyword, other, next_token}
use area.Standby.Lexed.{Lexes, Lexes-token, Lexes-space}
use area.Standby.Format.{format_int}
use area.Standby.Names.{next_token-other, length-rest}

abbrev char_of : ℕ → ℕ
char_of d = b'0' + d

digit-differs :
    (k c : ℕ)
    → is_digit c ≡ true
    → (leb b'a' k && leb k b'z') ≡ true
    → eq_text (lower (c ∷ [])) (k ∷ []) ≡ false
unfolding is_digit eq_text lower
digit-differs k c h e = ground arith

char-is_digit : (d : ℕ) → ltb d 10 ≡ true → is_digit (char_of d) ≡ true
unfolding is_digit
char-is_digit d h = ground arith

-- The tests that come before that for digits.
digit_tests :
    (c : ℕ)
    → is_digit c ≡ true
    → (is_space c ≡ false)
      × (is_ident_start c ≡ false)
      × ((c == b'"') ≡ false)
      × ((c == b'*') ≡ false)
unfolding is_digit is_space is_ident_start
digit_tests c h = (ground arith, ground arith, ground arith, ground arith)

digit_keyword :
    (k c : ℕ) (ks s : Text)
    → is_digit c ≡ true
    → (leb b'a' k && leb k b'z') ≡ true
    → keyword (k ∷ ks) (c ∷ s) ≡ none
unfolding keyword
digit_keyword k c ks s h e = rw (digit-differs k c h e) refl

abbrev as_num : Text × Text → Option Token × Text
as_num (digits, rest) = (some (Token.num (value_of 0 digits)), rest)

other-digit : (c : ℕ) (s : Text) → is_digit c ≡ true → other c s ≡ as_num (span is_digit (c ∷ s))
unfolding other
other-digit c s h = let (a, b, d, e) = digit_tests c h in rw (a, b, d, e, h) refl

space-is_digit : is_digit b' ' ≡ false
unfolding is_digit
space-is_digit = refl

span-digit :
    (ds : List ℕ) (s : Text)
    → every (λ d. ltb d 10) ds ≡ true
    → span is_digit (map char_of ds ++ b' ' ∷ s) ≡ (map char_of ds, b' ' ∷ s)
unfolding span
span-digit [] s h = rw space-is_digit refl
span-digit (d ∷ ds) s h =
    let (a, b) = and-eq-true (ltb d 10) (every (λ d. ltb d 10) ds) h in
    rw (char-is_digit d a, span-digit ds s b) refl

value_of-map : (n : ℕ) (ds : List ℕ) → value_of n (map char_of ds) ≡ value_onto 10 n ds
unfolding value_of value_onto
value_of-map n [] = refl
value_of-map n (d ∷ ds) =
    ap (λ v. value_of v (map char_of ds)) (step n d) ∙ value_of-map (10 * n + d) ds
  where
    step : (n d : ℕ) → 10 * n + (b'0' + d - b'0') ≡ 10 * n + d
    step n d = omega arith

digits-Lexes :
    (ds : List ℕ) (s : Text) (ts : List Token)
    → is_empty ds ≡ false
    → every (λ d. ltb d 10) ds ≡ true
    → Lexes (b' ' ∷ s) ts
    → Lexes (map char_of ds ++ b' ' ∷ s) (Token.num (value_onto 10 0 ds) ∷ ts)
digits-Lexes [] s ts e h k = cc
digits-Lexes (d ∷ ds) s ts e h k =
    let a = char-is_digit d (and-eq-true (ltb d 10) (every (λ d. ltb d 10) ds) h).0 in
    let rest = map char_of ds ++ b' ' ∷ s in
    Lexes-token (char_of d) rest (Token.num (value_onto 10 0 (d ∷ ds))) (b' ' ∷ s) ts
      (next_token-other (char_of d) rest (digit_keyword b'f' (char_of d) (codes "irst") rest a refl)
          (digit_keyword b'a' (char_of d) (codes "ny") rest a refl)
        ∙ other-digit (char_of d) rest a
        ∙ ap as_num (span-digit (d ∷ ds) s h)
        ∙ ap (λ v. (some (Token.num v), b' ' ∷ s)) (value_of-map 0 (d ∷ ds)))
      (length-rest (map char_of ds) (b' ' ∷ s)) k

pub format_int-Lexes :
    (n : ℕ) (s : Text) (ts : List Token)
    → Lexes (b' ' ∷ s) ts
    → Lexes (format_int (pos n) ++ b' ' ∷ s) (Token.num n ∷ ts)
unfolding format_int
format_int-Lexes n s ts k =
    subst (λ v. Lexes (map char_of (digits 10 n) ++ b' ' ∷ s) (Token.num v ∷ ts))
      (value-digits 10 n (omega arith))
      (digits-Lexes (digits 10 n) s ts (filled-digits 10 n) (digits-lt 10 n (omega arith)) k)

space-token : (c : ℕ) (s : Text) → is_space c ≡ false → next_token b' ' (c ∷ s) ≡ (none, c ∷ s)
unfolding next_token eq_text lower
space-token c s h = rw h refl

-- A space in front.
pub space-Lexes :
    (c : ℕ) (s : Text) (ts : List Token)
    → is_space c ≡ false
    → Lexes (c ∷ s) ts
    → Lexes (b' ' ∷ c ∷ s) ts
space-Lexes c s ts h k = Lexes-space b' ' (c ∷ s) (c ∷ s) ts (space-token c s h) (omega arith) k

pub space-format_int :
    (n : ℕ) (s : Text) (ts : List Token)
    → Lexes (format_int (pos n) ++ s) ts
    → Lexes (b' ' ∷ (format_int (pos n) ++ s)) ts
unfolding format_int
space-format_int n s ts k =
    spaced (digits 10 n) (filled-digits 10 n) (digits-lt 10 n (omega arith)) k
  where
    spaced :
        (ds : List ℕ)
        → is_empty ds ≡ false
        → every (λ d. ltb d 10) ds ≡ true
        → Lexes (map char_of ds ++ s) ts
        → Lexes (b' ' ∷ (map char_of ds ++ s)) ts
    spaced [] e h k = cc
    spaced (d ∷ ds) e h k =
        space-Lexes (char_of d) (map char_of ds ++ s) ts
          (digit_tests (char_of d)
            (char-is_digit d (and-eq-true (ltb d 10) (every (λ d. ltb d 10) ds) h).0)).0
          k
