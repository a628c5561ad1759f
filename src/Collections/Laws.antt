-- ===== src/Collections/Laws.antt =====
-- Membership and cardinality of case-insensitive sets.
use area.Common.{
  ◌≡◌, refl, sym, ap, ◌∙◌, Bool, true, not, ◌&&◌, ◌||◌, List, [], ◌∷◌, ◌++◌, arith, Text, eq_text,
  eq_text_refl, eq_of_eq_text, lower, keep, some_of-append, Bool-cases, inl, inr,
}
use area.Collections.{
  CaseInsensitiveSet, same_key, contains, add, add_all, of_values, union, inter, diff, discard,
}

-- `same_key` is the kernel of `lower`.
key_eq : (v w : Text) → same_key v w ≡ true → lower v ≡ lower w
unfolding same_key
key_eq v w h = eq_of_eq_text (lower v) (lower w) h

same_key_of_eq : (v w : Text) → lower v ≡ lower w → same_key v w ≡ true
unfolding same_key
same_key_of_eq v w e = ap (eq_text (lower v)) (sym e) ∙ eq_text_refl (lower v)

pub same_key_refl : (v : Text) → same_key v v ≡ true
same_key_refl v = same_key_of_eq v v refl

pub same_key-congr : (v w x : Text) → same_key v w ≡ true → same_key v x ≡ same_key w x
unfolding same_key
same_key-congr v w x h = ap (λ k. eq_text k (lower x)) (key_eq v w (unfold same_key in h))

pub same_key_symm : (v w : Text) → same_key v w ≡ same_key w v
same_key_symm v w = elim (Bool-cases (same_key v w)) [
  | inl h ↦ h ∙ sym (same_key_of_eq w v (sym (key_eq v w h)))
  | inr h ↦ elim (Bool-cases (same_key w v)) [
    | inl k ↦ absurd (ground (arith, same_key_of_eq v w (sym (key_eq w v k))))
    | inr k ↦ h ∙ sym k
  ]
]

pub contains-congr :
    (v w : Text) (s : CaseInsensitiveSet) → same_key v w ≡ true → contains v s ≡ contains w s
contains-congr v w [] h = refl
contains-congr v w (x ∷ s) h = ground (arith, same_key-congr v w x h, contains-congr v w s h)

pub contains-add :
    (x v : Text) (s : CaseInsensitiveSet) → contains x (add s v) ≡ (same_key x v || contains x s)
unfolding add
contains-add x v [] = refl
contains-add x v (w ∷ s) = elim (Bool-cases (same_key v w)) [
  | inl h ↦ rw (h, same_key_symm x v, same_key_symm x w, same_key-congr v w x h) (ground arith)
  | inr h ↦ rw h (ground (arith, contains-add x v s))
]

contains-add_all :
    (x : Text) (s vs : CaseInsensitiveSet)
    → contains x (add_all s vs) ≡ (contains x s || contains x vs)
unfolding add_all
contains-add_all x s [] = ground arith
contains-add_all x s (v ∷ vs) = ground (arith, contains-add_all x (add s v) vs, contains-add x v s)

pub contains-of_values : (x : Text) (vs : List Text) → contains x (of_values vs) ≡ contains x vs
unfolding of_values
contains-of_values x vs = contains-add_all x [] vs

pub contains-keep :
    (p : Text → Bool) (x : Text) (s : CaseInsensitiveSet)
    → ((v w : Text) → same_key v w ≡ true → p v ≡ p w)
    → contains x (keep p s) ≡ (contains x s && p x)
contains-keep p x [] h = refl
contains-keep p x (w ∷ s) h = ground (arith, contains-keep p x s h, h x w)

pub contains-union :
    (x : Text) (a b : CaseInsensitiveSet) → contains x (union a b) ≡ (contains x a || contains x b)
unfolding union
contains-union x a b = contains-of_values x (a ++ b) ∙ some_of-append (same_key x) a b

pub contains-inter :
    (x : Text) (a b : CaseInsensitiveSet) → contains x (inter a b) ≡ (contains x b && contains x a)
unfolding inter
contains-inter x a b =
    contains-of_values x (keep (λ v. contains v a) b)
    ∙ contains-keep (λ v. contains v a) x b (λ v w e. contains-congr v w a e)

pub contains-diff :
    (x : Text) (a b : CaseInsensitiveSet)
    → contains x (diff a b) ≡ (contains x a && not (contains x b))
unfolding diff
contains-diff x a b =
    contains-of_values x (keep (λ v. not (contains v b)) a)
    ∙ contains-keep (λ v. not (contains v b)) x a (λ v w e. ap not (contains-congr v w b e))

pub contains-discard :
    (x v : Text) (s : CaseInsensitiveSet)
    → contains x (discard s v) ≡ (contains x s && not (same_key x v))
unfolding discard
contains-discard x v s =
    contains-keep (λ w. not (same_key v w)) x s
      (λ y z e. ap not (same_key_symm v y ∙ same_key-congr y z v e ∙ same_key_symm z v))
    ∙ ap (λ b. contains x s && not b) (same_key_symm v x)
