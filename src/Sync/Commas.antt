-- ===== src/Sync/Commas.antt =====
-- Reading back a list of names that was joined by commas.
use area.Common.{
  ℕ, ◌≡◌, refl, ap, ◌∙◌, inl, inr, arith, Bool-cases, and-eq-true, ◌==◌, Bool, true, false, not,
  ◌&&◌, List, [], ◌∷◌, ◌++◌, map, keep, every, is_empty, Text,
}
use area.Sync.Names.{
  is_space, strip_left, strip_right, strip, comma, extend, split, join, str_to_list,
}

-- A character of a name that needs no care: neither a comma nor a space.
abbrev pub plain_char : ℕ → Bool
plain_char c = not (c == comma) && not (is_space c)

abbrev pub plain : Text → Bool
plain s = not (is_empty s) && every plain_char s

split_parts : (s : Text) → (x : Text) × (xs : List Text) × (split s ≡ x ∷ xs)
unfolding split
split_parts [] = ([], [], refl)
split_parts (c ∷ s) = elim (Bool-cases (c == comma)) [
  | inl e ↦ ([], split s, rw e)
  | inr e ↦ let (x, xs, h) = split_parts s in (c ∷ x, xs, rw (e, h))
]

extend-append :
    (c : ℕ) (s : Text) (ts : List Text) → extend c (split s ++ ts) ≡ extend c (split s) ++ ts
extend-append c s ts = let (x, xs, h) = split_parts s in rw h

split-append : (s t : Text) → split (s ++ comma ∷ t) ≡ split s ++ split t
unfolding split
split-append [] t = refl
split-append (c ∷ s) t = elim (Bool-cases (c == comma)) [
  | inl e ↦ rw (e, split-append s t)
  | inr e ↦ rw (e, split-append s t, extend-append c s (split t))
]

split-plain : (s : Text) → every plain_char s ≡ true → split s ≡ s ∷ []
unfolding split
split-plain [] h = refl
split-plain (c ∷ s) h =
    let (k, l) = and-eq-true (plain_char c) (every plain_char s) h in
    let e : (c == comma) ≡ false = ground arith in rw (e, split-plain s l)

pub strip_left-plain : (s : Text) → every plain_char s ≡ true → strip_left s ≡ s
unfolding strip_left
strip_left-plain [] h = refl
strip_left-plain (c ∷ s) h =
    let (k, _) = and-eq-true (plain_char c) (every plain_char s) h in
    let (_, e) = and-eq-true (not (c == comma)) (not (is_space c)) k in
    let f : is_space c ≡ false = ground arith in rw f

pub strip_right-plain : (s : Text) → every plain_char s ≡ true → strip_right s ≡ s
unfolding strip_right
strip_right-plain [] h = refl
strip_right-plain (c ∷ s) h =
    let (k, l) = and-eq-true (plain_char c) (every plain_char s) h in
    let (_, e) = and-eq-true (not (c == comma)) (not (is_space c)) k in
    let f : (is_empty s && is_space c) ≡ false = ground arith in rw (strip_right-plain s l, f)

map-append : {A B : Type 0} (f : A → B) (xs ys : List A) → map f (xs ++ ys) ≡ map f xs ++ map f ys
map-append f [] ys = refl
map-append f (x ∷ xs) ys = ap (λ zs. f x ∷ zs) (map-append f xs ys)

keep-append :
    {A : Type 0} (p : A → Bool) (xs ys : List A) → keep p (xs ++ ys) ≡ keep p xs ++ keep p ys
keep-append p [] ys = refl
keep-append p (x ∷ xs) ys = elim (Bool-cases (p x)) [
  | inl e ↦ rw (e, keep-append p xs ys)
  | inr e ↦ rw (e, keep-append p xs ys)
]

pub str_to_list-append :
    (s t : Text) → str_to_list (s ++ comma ∷ t) ≡ str_to_list s ++ str_to_list t
unfolding str_to_list
str_to_list-append s t = rw (
  split-append s t,
  map-append strip (split s) (split t),
  keep-append (λ a. not (is_empty a)) (map strip (split s)) (map strip (split t)),
)

pub str_to_list-plain : (s : Text) → plain s ≡ true → str_to_list s ≡ s ∷ []
unfolding str_to_list
str_to_list-plain s h =
    let (k, l) = and-eq-true (not (is_empty s)) (every plain_char s) h in
    rw (split-plain s l, strip_left-plain s l, strip_right-plain s l, k)

pub str_to_list-join : (ss : List Text) → every plain ss ≡ true → str_to_list (join ss) ≡ ss
unfolding join str_to_list split strip_left strip_right
str_to_list-join [] h = refl
str_to_list-join (s ∷ []) h = let (k, _) = and-eq-true (plain s) true h in str_to_list-plain s k
str_to_list-join (s ∷ t ∷ ss) h =
    let (k, l) = and-eq-true (plain s) (every plain (t ∷ ss)) h in
    str_to_list-append s (join (t ∷ ss)) ∙ (rw (str_to_list-plain s k, str_to_list-join (t ∷ ss) l))
