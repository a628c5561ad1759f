-- ===== src/Collections.antt =====
-- `CaseInsensitiveSet` of collections.py. `_values` maps `value.lower()` to the value last added, in
-- insertion order; only this class writes it, so the list of the values determines it.
pub mod Laws
pub mod Size
pub mod Within
use area.Common.{
  ℤ, pos, List, [], ◌∷◌, ◌++◌, Bool, ◌&&◌, not, Text, eq_text, lower, length, keep, every, some_of,
  leb, ltb, ◌==◌, if◌then◌else◌,
}

abbrev pub CaseInsensitiveSet : Type 0
CaseInsensitiveSet = List Text

-- Two strings with one key of `_values`.
unfoldable pub same_key : Text → Text → Bool
same_key v w = eq_text (lower v) (lower w)

-- `value.lower() in self._values`
abbrev pub contains : Text → CaseInsensitiveSet → Bool
contains v s = some_of (same_key v) s

-- An existing key keeps its place in the dict and takes the new value.
unfoldable pub add : CaseInsensitiveSet → Text → CaseInsensitiveSet
add [] v = v ∷ []
add (w ∷ s) v = let rest = add s v in if same_key v w then v ∷ s else w ∷ rest

unfoldable pub discard : CaseInsensitiveSet → Text → CaseInsensitiveSet
discard s v = keep (λ w. not (same_key v w)) s

add_all : CaseInsensitiveSet → List Text → CaseInsensitiveSet
add_all s [] = s
add_all s (v ∷ vs) = add_all (add s v) vs

-- `CaseInsensitiveSet(values)`
unfoldable pub of_values : List Text → CaseInsensitiveSet
unfolding add_all
of_values = add_all []

-- `len(s)`
abbrev pub len : CaseInsensitiveSet → ℤ
len s = pos (length s)

-- The operators `a | b`, `a & b` and `a - b`, inherited from `collections.abc.Set`.
unfoldable pub union : CaseInsensitiveSet → CaseInsensitiveSet → CaseInsensitiveSet
union a b = of_values (a ++ b)

unfoldable pub inter : CaseInsensitiveSet → CaseInsensitiveSet → CaseInsensitiveSet
inter a b = of_values (keep (λ v. contains v a) b)

unfoldable pub diff : CaseInsensitiveSet → CaseInsensitiveSet → CaseInsensitiveSet
diff a b = of_values (keep (λ v. not (contains v b)) a)

-- `a <= b`, which is also `a.issubset(b)`
unfoldable pub issubset : CaseInsensitiveSet → CaseInsensitiveSet → Bool
issubset a b = leb (length a) (length b) && every (λ v. contains v b) a

-- `a < b`; `a > b` is `is_less b a`
unfoldable pub is_less : CaseInsensitiveSet → CaseInsensitiveSet → Bool
is_less a b = ltb (length a) (length b) && issubset a b

-- `a == b`
unfoldable pub eq_set : CaseInsensitiveSet → CaseInsensitiveSet → Bool
eq_set a b = length a == length b && issubset a b

-- `a &= b` discards the values of `a - b`, and `a -= b` those of `b`.
discard_all : CaseInsensitiveSet → List Text → CaseInsensitiveSet
discard_all s [] = s
discard_all s (v ∷ vs) = discard_all (discard s v) vs

unfoldable pub retain : CaseInsensitiveSet → CaseInsensitiveSet → CaseInsensitiveSet
unfolding discard_all
retain a b = discard_all a (diff a b)

unfoldable pub remove : CaseInsensitiveSet → CaseInsensitiveSet → CaseInsensitiveSet
unfolding discard_all
remove a b = discard_all a b
