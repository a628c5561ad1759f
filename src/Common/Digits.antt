-- ===== src/Common/Digits.antt =====
-- Positional numerals: the digits of a number in a base, the first digit being the highest.
use Prim.Native.Nat.{ℕ, zero, suc, ◌+◌, ◌*◌, ◌/◌, ◌%◌, ◌≤◌, ◌<◌}
use mathlib.Core.Path.{◌≡◌, refl, ap, ◌∙◌}
use mathlib.Core.Bool.{Bool, true, false, ◌&&◌}
use mathlib.Core.List.{List, [], ◌∷◌, ◌++◌}
use mathlib.Core.Logic.{inl, inr}
use native.Mathlib.Omega.{arith}
use area.Common.Tests.{ltb, if◌then◌else◌, Bool-cases}
use area.Common.Lists.{every, is_empty}

-- One step for each digit; a number has no more digits than one more than it counts.
unfoldable pub digits_on : ℕ → ℕ → ℕ → List ℕ
digits_on zero base n = []
digits_on (suc fuel) base n =
    let rest = digits_on fuel base (n / base) in
    if ltb n base then n ∷ [] else rest ++ n % base ∷ []

unfoldable pub digits : ℕ → ℕ → List ℕ
unfolding digits_on
digits base n = digits_on (suc n) base n

unfoldable pub value_onto : ℕ → ℕ → List ℕ → ℕ
value_onto base n [] = n
value_onto base n (d ∷ ds) = value_onto base (base * n + d) ds

pub value_onto-append :
    (base n : ℕ) (ds es : List ℕ)
    → value_onto base n (ds ++ es) ≡ value_onto base (value_onto base n ds) es
unfolding value_onto
value_onto-append base n [] es = refl
value_onto-append base n (d ∷ ds) es = value_onto-append base (base * n + d) ds es

div_mod : (n base : ℕ) → 2 ≤ base → base * (n / base) + n % base ≡ n
div_mod n base h = grind arith

div_lt : (n base : ℕ) → 2 ≤ base → base ≤ n → n / base < n
div_lt n base h k = grind arith

mod_lt : (n base : ℕ) → 2 ≤ base → n % base < base
mod_lt n base h = grind arith

value-digits_on :
    (fuel base n : ℕ) → 2 ≤ base → n < fuel → value_onto base 0 (digits_on fuel base n) ≡ n
unfolding digits_on value_onto
value-digits_on zero base n h k = absurd (omega arith)
value-digits_on (suc fuel) base n h k = elim (Bool-cases (ltb n base)) [
  | inl e ↦ rw e (grind arith)
  | inr e ↦ rw e (
      value_onto-append base 0 (digits_on fuel base (n / base)) (n % base ∷ [])
      ∙ ap (λ v. base * v + n % base) (value-digits_on fuel base (n / base) h (smaller (large e)))
      ∙ div_mod n base h)
]
  where
    large : ltb n base ≡ false → base ≤ n
    large e = ground arith

    smaller : base ≤ n → n / base < fuel
    smaller l = omega (arith, div_lt n base h l)

-- The digits of a number have its value.
pub value-digits : (base n : ℕ) → 2 ≤ base → value_onto base 0 (digits base n) ≡ n
unfolding digits
value-digits base n h = value-digits_on (suc n) base n h (omega arith)

every-append : (p : ℕ → Bool) (xs ys : List ℕ) → every p (xs ++ ys) ≡ (every p xs && every p ys)
every-append p [] ys = refl
every-append p (x ∷ xs) ys = ground (arith, every-append p xs ys)

-- Every digit is below the base.
digits_on-lt : (fuel base n : ℕ) → 2 ≤ base → every (λ d. ltb d base) (digits_on fuel base n) ≡ true
unfolding digits_on
digits_on-lt zero base n h = refl
digits_on-lt (suc fuel) base n h = elim (Bool-cases (ltb n base)) [
  | inl e ↦ rw (e, e) refl
  | inr e ↦
      rw
        (
          e,
          every-append (λ d. ltb d base) (digits_on fuel base (n / base)) (n % base ∷ []),
          digits_on-lt fuel base (n / base) h,
        )
        (below (mod_lt n base h))
]
  where
    below : n % base < base → (ltb (n % base) base && true) ≡ true
    below l = ground arith

pub digits-lt : (base n : ℕ) → 2 ≤ base → every (λ d. ltb d base) (digits base n) ≡ true
unfolding digits
digits-lt base n h = digits_on-lt (suc n) base n h

pub filled-digits : (base n : ℕ) → is_empty (digits base n) ≡ false
unfolding digits digits_on
filled-digits base n = elim (Bool-cases (ltb n base)) [
  | inl e ↦ rw e refl
  | inr e ↦ rw e (filled (digits_on n base (n / base)))
]
  where
    filled : (ds : List ℕ) → is_empty (ds ++ n % base ∷ []) ≡ false
    filled [] = refl
    filled (d ∷ ds) = refl
