-- ===== src/Slots/Valid.antt =====
-- Slot names are valid, and converting them again changes nothing.
use area.Common.{
  ℕ, zero, suc, ◌/◌, ◌≤◌, ◌≡◌, refl, ap, ◌∙◌, inl, inr, arith, Bool-cases, and-eq-true, ltb, ◌==◌,
  Bool, true, false, ◌||◌, List, [], ◌∷◌, ◌++◌, map, take, every, length, Text, lower, lower_char,
  if◌then◌else◌,
}
use area.Slots.Name.{
  is_slot_char, digit, format_04d, replace_char, replace_chars, slot_name_from_member_name,
}

digit-is_slot_char : (n : ℕ) → is_slot_char (digit n) ≡ true
unfolding is_slot_char
digit-is_slot_char n = ground arith

every-append :
    (p : ℕ → Bool) (s t : Text) → every p s ≡ true → every p t ≡ true → every p (s ++ t) ≡ true
every-append p [] t h k = k
every-append p (c ∷ s) t h k =
    let (a, b) = and-eq-true (p c) (every p s) h in rw (a, every-append p s t b k)

every-digits : (ns : List ℕ) → every is_slot_char (map digit ns) ≡ true
every-digits [] = refl
every-digits (n ∷ ns) = rw (digit-is_slot_char n, every-digits ns)

every-if :
    (p : ℕ → Bool) (b : Bool) (s t : Text)
    → every p s ≡ true
    → every p t ≡ true
    → every p (if b then s else t) ≡ true
every-if p true s t h k = h
every-if p false s t h k = k

format_04d-every : (n : ℕ) → every is_slot_char (format_04d n) ≡ true
unfolding format_04d
format_04d-every n =
    every-if is_slot_char (ltb n 10000) _ _ (every-digits (n / 1000 ∷ n / 100 ∷ n / 10 ∷ n ∷ [])) (
      every-if is_slot_char (ltb n 100000) _ _
        (every-digits (n / 10000 ∷ n / 1000 ∷ n / 100 ∷ n / 10 ∷ n ∷ []))
        (every-if is_slot_char (ltb n 1000000) _ _
          (every-digits (n / 100000 ∷ n / 10000 ∷ n / 1000 ∷ n / 100 ∷ n / 10 ∷ n ∷ []))
          (every-digits
            (n / 1000000 ∷ n / 100000 ∷ n / 10000 ∷ n / 1000 ∷ n / 100 ∷ n / 10 ∷ n ∷ []))))

replace_char-every : (c : ℕ) → every is_slot_char (replace_char c) ≡ true
unfolding replace_char is_slot_char
replace_char-every c = elim (Bool-cases (c == b'-' || c == b'.')) [
  | inl e ↦ rw e
  | inr e ↦ rw (e, format_04d-every c)
]

replace_chars-every : (s : Text) → every is_slot_char (replace_chars s) ≡ true
unfolding replace_chars
replace_chars-every [] = refl
replace_chars-every (c ∷ s) = elim (Bool-cases (is_slot_char c)) [
  | inl e ↦ rw (e, replace_chars-every s, e)
  | inr e ↦ rw e (
      every-append is_slot_char (replace_char c) (replace_chars s) (replace_char-every c)
        (replace_chars-every s))
]

take-every : (p : ℕ → Bool) (n : ℕ) (s : Text) → every p s ≡ true → every p (take n s) ≡ true
take-every p zero s h = refl
take-every p (suc n) [] h = refl
take-every p (suc n) (c ∷ s) h =
    let (a, b) = and-eq-true (p c) (every p s) h in rw (a, take-every p n s b)

length-take : (n : ℕ) (s : Text) → length (take n s) ≤ n
length-take zero s = omega arith
length-take (suc n) [] = omega arith
length-take (suc n) (c ∷ s) = omega (arith, length-take n s)

take-short : (n : ℕ) (s : Text) → length s ≤ n → take n s ≡ s
take-short zero [] h = refl
take-short zero (c ∷ s) h = ground arith
take-short (suc n) [] h = refl
take-short (suc n) (c ∷ s) h = ap (λ r. c ∷ r) (take-short n s (omega arith))

lower-slot_char : (c : ℕ) → is_slot_char c ≡ true → lower_char c ≡ c
unfolding is_slot_char
lower-slot_char c h = ground arith

replace_chars-valid : (s : Text) → every is_slot_char s ≡ true → replace_chars (lower s) ≡ s
unfolding replace_chars lower
replace_chars-valid [] h = refl
replace_chars-valid (c ∷ s) h =
    let (a, b) = and-eq-true (is_slot_char c) (every is_slot_char s) h in
    rw (lower-slot_char c a, a, replace_chars-valid s b)

-- A slot name has at most 63 characters, all of them lower-case letters, digits or underscores, and it
-- is its own slot name.
pub slot_name-valid :
    (member_name : Text)
    → (let slot = slot_name_from_member_name member_name in
        (length slot ≤ 63)
        × (every is_slot_char slot ≡ true)
        × (slot_name_from_member_name slot ≡ slot))
unfolding slot_name_from_member_name
slot_name-valid member_name =
    let short = length-take 63 (replace_chars (lower member_name)) in
    let valid =
      take-every is_slot_char 63 (replace_chars (lower member_name))
        (replace_chars-every (lower member_name)) in
    (short, valid, ap (take 63) (replace_chars-valid _ valid) ∙ take-short 63 _ short)
