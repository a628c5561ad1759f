-- ===== src/Collections/Within.antt =====
-- Sets whose values are all in another set.
use area.Common.{
  ℕ, suc, ◌≤◌, keep, ◌==◌, ◌≡◌, inl, inr, arith, Bool-cases, true, and-eq-true, [], ◌∷◌, is_empty,
  length, leb, Text,
}
use area.Collections.{CaseInsensitiveSet, contains, eq_set, inter, issubset}
use area.Collections.Laws.{contains-inter}
use area.Collections.Size.{IsDistinct, of_values-IsDistinct, length-le_of_Includes}

abbrev pub IsWithin : CaseInsensitiveSet → CaseInsensitiveSet → Type 0
IsWithin a b = (x : Text) → contains x a ≡ true → contains x b ≡ true

-- Of sets of one size that are equal by the test, each includes the other.
pub eq_set-IsWithin : (a b : CaseInsensitiveSet) → IsDistinct a → eq_set a b ≡ true → IsWithin b a
unfolding eq_set issubset
eq_set-IsWithin a b d h x e = elim (Bool-cases (contains x a)) [
  | inl k ↦ k
  | inr k ↦
      let l =
        length-le_of_Includes (x ∷ a) b (k, d)
          (rw e
            (and-eq-true (leb (length a) (length b)) _
              (and-eq-true (length a == length b) _ h).1).1) in
      absurd (longer (length a) (length b) (and-eq-true (length a == length b) _ h).0 l)
]
  where
    longer : (m n : ℕ) → (m == n) ≡ true → suc m ≤ n → ⊥
    longer m n e l = ground arith

pub inter-IsDistinct : (a b : CaseInsensitiveSet) → IsDistinct (inter a b)
unfolding inter
inter-IsDistinct a b = of_values-IsDistinct (keep (λ v. contains v a) b)

pub inter-IsWithin_right : (a b : CaseInsensitiveSet) → IsWithin (inter a b) b
inter-IsWithin_right a b x e = ground (arith, contains-inter x a b)

pub empty-IsWithin : (a b : CaseInsensitiveSet) → is_empty a ≡ true → IsWithin a b
empty-IsWithin [] b h x e = cc
empty-IsWithin (v ∷ a) b h x e = cc
