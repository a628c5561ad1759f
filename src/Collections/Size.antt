-- ===== src/Collections/Size.antt =====
-- Sets without duplicate keys, and the pigeonhole argument about overlapping sets.
use area.Common.{
  ◌++◌, ◌+◌, ◌≤◌, ◌<◌, ◌≡◌, refl, ◌∙◌, Bool, true, false, not, List, [], ◌∷◌, arith, Text, length,
  keep, every, Bool-cases, inl, inr, and-eq-true,
}
use area.Collections.{
  CaseInsensitiveSet, same_key, contains, add, add_all, union, of_values, discard,
}
use area.Collections.Laws.{
  same_key_refl, same_key_symm, contains-congr, contains-add, contains-discard,
}

-- No two values share a key, as in every dict.
abbrev pub IsDistinct : CaseInsensitiveSet → Type 0
IsDistinct [] = Unit
IsDistinct (v ∷ s) = (contains v s ≡ false) × IsDistinct s

-- Every value of `a` is in `b`.
abbrev pub Includes : CaseInsensitiveSet → CaseInsensitiveSet → Type 0
Includes b a = every (λ v. contains v b) a ≡ true

pub add-IsDistinct : (s : CaseInsensitiveSet) (v : Text) → IsDistinct s → IsDistinct (add s v)
unfolding add
add-IsDistinct [] v h = (refl, tt)
add-IsDistinct (w ∷ s) v h = elim (Bool-cases (same_key v w)) [
  | inl e ↦ rw e (contains-congr v w s e ∙ h.0, h.1)
  | inr e ↦ rw e (ground (arith, contains-add w v s, same_key_symm w v), add-IsDistinct s v h.1)
]

add_all-IsDistinct :
    (s : CaseInsensitiveSet) (vs : List Text) → IsDistinct s → IsDistinct (add_all s vs)
unfolding add_all
add_all-IsDistinct s [] h = h
add_all-IsDistinct s (v ∷ vs) h = add_all-IsDistinct (add s v) vs (add-IsDistinct s v h)

pub of_values-IsDistinct : (vs : List Text) → IsDistinct (of_values vs)
unfolding of_values
of_values-IsDistinct vs = add_all-IsDistinct [] vs tt

pub union-IsDistinct : (a b : CaseInsensitiveSet) → IsDistinct (union a b)
unfolding union
union-IsDistinct a b = of_values-IsDistinct (a ++ b)

pub Includes-of_forall :
    (b a : CaseInsensitiveSet)
    → ((x : Text) → contains x a ≡ true → contains x b ≡ true)
    → Includes b a
Includes-of_forall b [] h = refl
Includes-of_forall b (v ∷ a) h =
    rw (h v (ground (arith, same_key_refl v)))
      (Includes-of_forall b a (λ x e. h x (ground (arith, e))))

pub contains_of_Includes :
    (b a : CaseInsensitiveSet) (x : Text) → Includes b a → contains x a ≡ true → contains x b ≡ true
contains_of_Includes b [] x h e = cc
contains_of_Includes b (v ∷ a) x h e =
    ground (arith, contains-congr x v b, contains_of_Includes b a x)

-- A value that is there takes one place.
length-discard :
    (s : CaseInsensitiveSet) (v : Text) → contains v s ≡ true → length (discard s v) + 1 ≤ length s
unfolding discard
length-discard [] v h = cc
length-discard (w ∷ s) v h = elim (Bool-cases (same_key v w)) [
  | inl e ↦ rw e (omega (arith, length-keep (λ x. not (same_key v x)) s))
  | inr e ↦ rw e (omega (arith, length-discard s v (ground arith)))
]
  where
    length-keep : (p : Text → Bool) (xs : List Text) → length (keep p xs) ≤ length xs
    length-keep p [] = omega arith
    length-keep p (x ∷ xs) = ground (arith, length-keep p xs)

Includes-discard :
    (u a : CaseInsensitiveSet) (v : Text)
    → Includes u a
    → contains v a ≡ false
    → Includes (discard u v) a
Includes-discard u a v h out = Includes-of_forall (discard u v) a λ x e.
    contains-discard x v u
    ∙ ground (arith, contains_of_Includes u a x, same_key_symm x v, contains-congr x v a)

pub length-le_of_Includes :
    (a b : CaseInsensitiveSet) → IsDistinct a → Includes b a → length a ≤ length b
length-le_of_Includes [] b d h = omega arith
length-le_of_Includes (v ∷ a) b d h = omega (
  arith,
  length-le_of_Includes a (discard b v) d.1
      (Includes-discard b a v (and-eq-true (contains v b) _ h).1 d.0),
  length-discard b v (and-eq-true (contains v b) _ h).0,
)

-- Two sets within `u` that are together larger than `u` have a common value.
pub pigeonhole :
    (u a b : CaseInsensitiveSet)
    → IsDistinct a
    → IsDistinct b
    → Includes u a
    → Includes u b
    → length u < length a + length b
    → (x : Text) × (contains x a ≡ true) × (contains x b ≡ true)
pigeonhole u [] b da db ua ub h = absurd (omega (arith, length-le_of_Includes b u db ub))
pigeonhole u (v ∷ a) b da db ua ub h = elim (Bool-cases (contains v b)) [
  | inl e ↦ (v, rw same_key_refl, e)
  | inr e ↦
      let (x, xa, xb) =
        pigeonhole (discard u v) a b da.1 db
          (Includes-discard u a v (and-eq-true (contains v u) _ ua).1 da.0)
          (Includes-discard u b v ub e)
          (omega (arith, length-discard u v (and-eq-true (contains v u) _ ua).0, h)) in
      (x, ground arith, xb)
]
