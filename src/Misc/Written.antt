-- ===== src/Misc/Written.antt =====
-- A WAL position that is written is read back.
use area.Common.{
  ℕ, zero, suc, ◌-◌, ◌*◌, ◌/◌, ◌%◌, ◌==◌, ltb, leb, pos, ◌+ℤ◌, eq_of_parts, int_laws, ◌≡◌, refl, ap,
  ◌∙◌, arith, Bool, true, false, not, ◌&&◌, ◌||◌, and-eq-true, some, List, [], ◌∷◌, ◌++◌, map,
  length, every, is_empty, Text, digits, digits-lt, value-digits, filled-digits, value_onto,
}
use area.Sync.Names.{is_space}
use area.Sync.Commas.{strip_left-plain, strip_right-plain, plain_char}
use area.Misc.Number.{
  digit_value, read_digits, unprefixed, unsigned, int_of, split_at, with_sign, number_of,
}
use area.Misc.Lsn.{
  hex_char, hex, padded, format_lsn, zeros, parse_lsn, two_32, of_parts, of_numbers,
}

-- The characters that `{:X}` writes.
abbrev is_hex : ℕ → Bool
is_hex c = (leb b'0' c && leb c b'9') || (leb b'A' c && leb c b'F')

hex_char-is_hex : (d : ℕ) → ltb d 16 ≡ true → is_hex (hex_char d) ≡ true
unfolding hex_char
hex_char-is_hex d h = ground arith

every-hex_char :
    (ds : List ℕ) → every (λ d. ltb d 16) ds ≡ true → every is_hex (map hex_char ds) ≡ true
every-hex_char [] h = refl
every-hex_char (d ∷ ds) h = ground (arith, hex_char-is_hex d, every-hex_char ds)

every-hex : (n : ℕ) → every is_hex (hex n) ≡ true
unfolding hex
every-hex n = every-hex_char (digits 16 n) (digits-lt 16 n (omega arith))

digit_value-hex_char : (d : ℕ) → ltb d 16 ≡ true → digit_value (hex_char d) ≡ some d
unfolding digit_value hex_char
digit_value-hex_char d h = ground arith

not_underscore : (c : ℕ) → is_hex c ≡ true → (c == b'_') ≡ false
not_underscore c h = ground arith

read_digits-hex :
    (ds : List ℕ) (after : Bool)
    → every (λ d. ltb d 16) ds ≡ true
    → (after || not (is_empty ds)) ≡ true
    → read_digits 16 after (map hex_char ds) ≡ some ds
unfolding read_digits
read_digits-hex [] true h k = refl
read_digits-hex [] false h k = cc
read_digits-hex (d ∷ ds) after h k =
    let (a, b) = and-eq-true (ltb d 16) (every (λ d. ltb d 16) ds) h in
    rw
      (
        not_underscore (hex_char d) (hex_char-is_hex d a),
        digit_value-hex_char d a,
        a,
        read_digits-hex ds true b refl,
      )
      refl

unprefixed-hex : (s : Text) → every is_hex s ≡ true → unprefixed 16 s ≡ s
unfolding unprefixed
unprefixed-hex [] h = refl
unprefixed-hex (c ∷ []) h = refl
unprefixed-hex (c ∷ d ∷ s) h = ground arith

with_sign-read :
    (s : Text) (ds : List ℕ)
    → unprefixed 16 s ≡ s
    → read_digits 16 false s ≡ some ds
    → with_sign 16 false s ≡ some (pos (value_onto 16 0 ds))
with_sign-read s ds e k =
    ap (λ t. number_of 16 false (read_digits 16 false t)) e ∙ ap (number_of 16 false) k

unsigned-hex :
    (s : Text) (ds : List ℕ)
    → not (is_empty s) ≡ true
    → every is_hex s ≡ true
    → read_digits 16 false s ≡ some ds
    → unsigned 16 s ≡ some (pos (value_onto 16 0 ds))
unfolding unsigned
unsigned-hex [] ds e h k = cc
unsigned-hex (c ∷ s) ds e h k =
    let (a, b) = not_sign c (and-eq-true (is_hex c) (every is_hex s) h).0 in
    rw (a, b) (with_sign-read (c ∷ s) ds (unprefixed-hex (c ∷ s) h) k)
  where
    not_sign : (c : ℕ) → is_hex c ≡ true → ((c == b'-') ≡ false) × ((c == b'+') ≡ false)
    not_sign c h = (ground arith, ground arith)

plain_char-is_hex : (c : ℕ) → is_hex c ≡ true → plain_char c ≡ true
unfolding is_space
plain_char-is_hex c h = ground arith

every-plain_char : (s : Text) → every is_hex s ≡ true → every plain_char s ≡ true
every-plain_char [] h = refl
every-plain_char (c ∷ s) h = ground (arith, plain_char-is_hex c, every-plain_char s)

-- Digits that are written are read back.
int_of-hex_char :
    (ds : List ℕ)
    → not (is_empty ds) ≡ true
    → every (λ d. ltb d 16) ds ≡ true
    → int_of 16 (map hex_char ds) ≡ some (pos (value_onto 16 0 ds))
unfolding int_of
int_of-hex_char ds e h =
    let p = every-plain_char (map hex_char ds) (every-hex_char ds h) in
    rw (strip_left-plain (map hex_char ds) p, strip_right-plain (map hex_char ds) p)
      (unsigned-hex (map hex_char ds) ds (filled ds e) (every-hex_char ds h)
        (read_digits-hex ds false h e))
  where
    filled : (ds : List ℕ) → not (is_empty ds) ≡ true → not (is_empty (map hex_char ds)) ≡ true
    filled [] e = cc
    filled (d ∷ ds) e = refl

split_at-hex : (s : Text) → every is_hex s ≡ true → split_at b'/' s ≡ s ∷ []
unfolding split_at
split_at-hex [] h = refl
split_at-hex (c ∷ s) h =
    rw
      (
        not_slash c (and-eq-true (is_hex c) (every is_hex s) h).0,
        split_at-hex s (and-eq-true (is_hex c) (every is_hex s) h).1,
      )
      refl
  where
    not_slash : (c : ℕ) → is_hex c ≡ true → (c == b'/') ≡ false
    not_slash c h = ground arith

split_at-slash :
    (s t : Text)
    → every is_hex s ≡ true
    → every is_hex t ≡ true
    → split_at b'/' (s ++ b'/' ∷ t) ≡ s ∷ t ∷ []
unfolding split_at
split_at-slash [] t h k = rw (split_at-hex t k) refl
split_at-slash (c ∷ s) t h k =
    rw
      (
        not_slash c (and-eq-true (is_hex c) (every is_hex s) h).0,
        split_at-slash s t (and-eq-true (is_hex c) (every is_hex s) h).1 k,
      )
      refl
  where
    not_slash : (c : ℕ) → is_hex c ≡ true → (c == b'/') ≡ false
    not_slash c h = ground arith

-- The digits that `{:08X}` puts before those of the number.
zero_digits : ℕ → List ℕ
zero_digits zero = []
zero_digits (suc n) = 0 ∷ zero_digits n

zeros-hex : (k : ℕ) (ds : List ℕ) → zeros k ++ map hex_char ds ≡ map hex_char (zero_digits k ++ ds)
unfolding zeros zero_digits hex_char
zeros-hex zero ds = refl
zeros-hex (suc k) ds = ap (λ s. b'0' ∷ s) (zeros-hex k ds)

value-zero_digits :
    (k : ℕ) (ds : List ℕ) → value_onto 16 0 (zero_digits k ++ ds) ≡ value_onto 16 0 ds
unfolding zero_digits value_onto
value-zero_digits zero ds = refl
value-zero_digits (suc k) ds = value-zero_digits k ds

lt-zero_digits :
    (k : ℕ) (ds : List ℕ)
    → every (λ d. ltb d 16) ds ≡ true
    → every (λ d. ltb d 16) (zero_digits k ++ ds) ≡ true
unfolding zero_digits
lt-zero_digits zero ds h = h
lt-zero_digits (suc k) ds h = lt-zero_digits k ds h

filled-zero_digits :
    (k : ℕ) (ds : List ℕ) → not (is_empty ds) ≡ true → not (is_empty (zero_digits k ++ ds)) ≡ true
unfolding zero_digits
filled-zero_digits zero ds h = h
filled-zero_digits (suc k) ds h = refl

-- The number that some zeros and the digits of `n` are read as.
int_of-zeros : (k n : ℕ) → int_of 16 (zeros k ++ hex n) ≡ some (pos n)
unfolding hex
int_of-zeros k n =
    let ds = digits 16 n in
    ap (int_of 16) (zeros-hex k ds)
    ∙ int_of-hex_char (zero_digits k ++ ds) (filled-zero_digits k ds (rw (filled-digits 16 n) refl))
        (lt-zero_digits k ds (digits-lt 16 n (omega arith)))
    ∙ ap (λ v. some (pos v)) (value-zero_digits k ds ∙ value-digits 16 n (omega arith))

every-zeros : (k n : ℕ) → every is_hex (zeros k ++ hex n) ≡ true
unfolding zeros
every-zeros zero n = every-hex n
every-zeros (suc k) n = every-zeros k n

int_of-hex : (n : ℕ) → int_of 16 (hex n) ≡ some (pos n)
unfolding zeros
int_of-hex n = int_of-zeros 0 n

parse_lsn_lem : (s : Text) → parse_lsn s ≡ of_parts (split_at b'/' s)
unfolding parse_lsn
parse_lsn_lem s = refl

-- Two numbers that are written with a slash between them.
parse_lsn-parts :
    (k h l : ℕ) → parse_lsn (hex h ++ b'/' ∷ (zeros k ++ hex l)) ≡ some (pos (two_32 * h) +ℤ pos l)
parse_lsn-parts k h l =
    parse_lsn_lem (hex h ++ b'/' ∷ (zeros k ++ hex l))
    ∙ ap of_parts (split_at-slash (hex h) (zeros k ++ hex l) (every-hex h) (every-zeros k l))
    ∙ ap (λ a. of_numbers a (int_of 16 (zeros k ++ hex l))) (int_of-hex h)
    ∙ ap (of_numbers (some (pos h))) (int_of-zeros k l)

parts : (n : ℕ) → pos (two_32 * (n / two_32)) +ℤ pos (n % two_32) ≡ pos n
parts n = eq_of_parts (pos (two_32 * (n / two_32)) +ℤ pos (n % two_32)) (pos n) (omega int_laws)

-- Every WAL position is read back from its text, whether or not the lower half has all its digits.
pub parse_lsn-format_lsn : (n : ℕ) (full : Bool) → parse_lsn (format_lsn n full) ≡ some (pos n)
unfolding format_lsn padded zeros
parse_lsn-format_lsn n true =
    parse_lsn-parts (8 - length (hex (n % two_32))) (n / two_32) (n % two_32) ∙ ap some (parts n)
parse_lsn-format_lsn n false = parse_lsn-parts 0 (n / two_32) (n % two_32) ∙ ap some (parts n)
