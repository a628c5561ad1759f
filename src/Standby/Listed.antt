-- ===== src/Standby/Listed.antt =====
-- Dictionaries whose keys are all in a set, and sets with one more value.
use area.Common.{
  suc, ◌≤◌, ℤ, ◌≡◌, refl, arith, Bool-cases, inl, inr, true, [], ◌∷◌, keep, every, length, Text,
}
use area.Collections.{CaseInsensitiveSet, contains, add, same_key}
use area.Collections.Laws.{contains-add, contains-congr, same_key_refl}
use area.Collections.Within.{IsWithin}
use area.Dictionary.{CaseInsensitiveDict, get_item, set_item}
use area.Standby.Replicas.{is_some}

-- Every key of the dictionary is in the set.
abbrev pub IsListed : CaseInsensitiveDict ℤ → CaseInsensitiveSet → Type 0
IsListed d s = every (λ e. contains e.key s) d ≡ true

pub IsListed-keep :
    (d : CaseInsensitiveDict ℤ) (s : CaseInsensitiveSet)
    → IsListed (keep (λ e. contains e.key s) d) s
IsListed-keep [] s = refl
IsListed-keep (e ∷ d) s = ground (arith, IsListed-keep d s)

pub IsListed-set_item :
    (d : CaseInsensitiveDict ℤ) (s : CaseInsensitiveSet) (key : Text) (v : ℤ)
    → IsListed d s
    → contains key s ≡ true
    → IsListed (set_item d key v) s
unfolding set_item
IsListed-set_item [] s key v h k = ground arith
IsListed-set_item (e ∷ d) s key v h k = ground (arith, IsListed-set_item d s key v)

pub listed-get_item :
    (d : CaseInsensitiveDict ℤ) (s : CaseInsensitiveSet) (key : Text)
    → IsListed d s
    → is_some (get_item d key) ≡ true
    → contains key s ≡ true
unfolding get_item
listed-get_item [] s key h k = cc
listed-get_item (e ∷ d) s key h k =
    ground (arith, listed-get_item d s key, contains-congr key e.key s)

pub add-IsWithin :
    (a b : CaseInsensitiveSet) (v : Text)
    → IsWithin a b
    → contains v b ≡ true
    → IsWithin (add a v) b
add-IsWithin a b v h k x e = ground (arith, contains-add x v a, contains-congr x v b, h x)

pub IsWithin-add : (a b : CaseInsensitiveSet) (v : Text) → IsWithin a b → IsWithin a (add b v)
IsWithin-add a b v h x e = ground (arith, contains-add x v b, h x)

pub contains-add_self : (a : CaseInsensitiveSet) (v : Text) → contains v (add a v) ≡ true
contains-add_self a v = ground (arith, contains-add v v a, same_key_refl v)

pub length-add : (a : CaseInsensitiveSet) (v : Text) → length (add a v) ≤ suc (length a)
unfolding add
length-add [] v = omega arith
length-add (w ∷ a) v = elim (Bool-cases (same_key v w)) [
  | inl e ↦ rw e (omega arith)
  | inr e ↦ rw e (omega (arith, length-add a v))
]
