-- ===== src/Standby/InForce.antt =====
-- The names that `set_synchronous_standby_names` is given are in force without quorum commit.
use area.Common.{
  ℕ, suc, leb, pos, ◌≡◌, refl, sym, ap, ◌∙◌, inl, inr, arith, Bool-cases, Bool, true, false, not,
  ◌&&◌, ◌||◌, and-eq-true, Option, none, some, List, [], ◌∷◌, ◌++◌, subst, every, some_of, map,
  length, Text, codes, eq_text, ltb_text, if◌then◌else◌,
}
use area.Collections.{CaseInsensitiveSet, same_key, contains, add}
use area.Collections.Laws.{contains-add}
use area.Collections.Within.{IsWithin}
use area.Sync.Names.{insert, sorted}
use area.Standby.Parse.{Ssn, SyncType, empty_ssn, quote_standby_name, parse_sync_standby_names}
use area.Standby.Format.{
  Writing, format_int, join_names, has_asterisk, quoted_names, param_of, sync_param,
}
use area.Standby.Names.{is_readable}
use area.Standby.Roundtrip.{add_all, ssn_of}
use area.Standby.Priority.{num_text, parse-num_text, parse-name}
use area.Standby.Reread.{quoted_names-if, two}
use area.Standby.State.{parsed}

-- A name that is read back, and is no `*`.
unfoldable pub is_usable : Text → Bool
is_usable name = is_readable name && not (eq_text (codes "*") name)

-- The names that can be waited for at once.
unfoldable pub is_settable : Bool → List Text → Bool
unfolding is_usable
is_settable multiple names = every is_usable names && (multiple || leb (length names) 1)

module _ (p : Text → Bool) where
  some_of-insert : (s : Text) (ss : List Text) → some_of p (insert s ss) ≡ (p s || some_of p ss)
  unfolding insert
  some_of-insert s [] = refl
  some_of-insert s (t ∷ ss) = elim (Bool-cases (ltb_text t s)) [
    | inl e ↦ rw e (ground (arith, some_of-insert s ss))
    | inr e ↦ rw e refl
  ]

  some_of-sorted : (ss : List Text) → some_of p (sorted ss) ≡ some_of p ss
  unfolding sorted
  some_of-sorted [] = refl
  some_of-sorted (s ∷ ss) = some_of-insert s (sorted ss) ∙ ap (λ b. p s || b) (some_of-sorted ss)

  every-insert : (s : Text) (ss : List Text) → every p (insert s ss) ≡ (p s && every p ss)
  unfolding insert
  every-insert s [] = refl
  every-insert s (t ∷ ss) = elim (Bool-cases (ltb_text t s)) [
    | inl e ↦ rw e (ground (arith, every-insert s ss))
    | inr e ↦ rw e refl
  ]

  every-sorted : (ss : List Text) → every p (sorted ss) ≡ every p ss
  unfolding sorted
  every-sorted [] = refl
  every-sorted (s ∷ ss) = every-insert s (sorted ss) ∙ ap (λ b. p s && b) (every-sorted ss)

length-insert : (s : Text) (ss : List Text) → length (insert s ss) ≡ suc (length ss)
unfolding insert
length-insert s [] = refl
length-insert s (t ∷ ss) = elim (Bool-cases (ltb_text t s)) [
  | inl e ↦ rw e (ap suc (length-insert s ss))
  | inr e ↦ rw e refl
]

length-sorted : (ss : List Text) → length (sorted ss) ≡ length ss
unfolding sorted
length-sorted [] = refl
length-sorted (s ∷ ss) = length-insert s (sorted ss) ∙ ap suc (length-sorted ss)

settable-sorted :
    (multiple : Bool) (ss : List Text) → is_settable multiple (sorted ss) ≡ is_settable multiple ss
unfolding is_settable
settable-sorted multiple ss =
    ap (λ b. b && (multiple || leb (length (sorted ss)) 1)) (every-sorted is_usable ss)
    ∙ ap (λ n. every is_usable ss && (multiple || leb n 1)) (length-sorted ss)

settable-usable :
    (multiple : Bool) (names : List Text)
    → is_settable multiple names ≡ true
    → every is_usable names ≡ true
unfolding is_settable
settable-usable multiple names h = ground arith

settable-multiple :
    (multiple : Bool) (a b : Text) (names : List Text)
    → is_settable multiple (a ∷ b ∷ names) ≡ true
    → multiple ≡ true
unfolding is_settable
settable-multiple multiple a b names h = ground arith

readable_of_usable :
    (names : List Text) → every is_usable names ≡ true → every is_readable names ≡ true
unfolding is_usable
readable_of_usable [] h = refl
readable_of_usable (name ∷ names) h = ground (arith, readable_of_usable names)

no_star :
    (names : List Text) → every is_usable names ≡ true → some_of (eq_text (codes "*")) names ≡ false
unfolding is_usable
no_star [] h = refl
no_star (name ∷ names) h = ground (arith, no_star names)

contains-add_all :
    (x : Text) (members : CaseInsensitiveSet) (names : List Text)
    → contains x (add_all members names) ≡ (contains x members || contains x names)
contains-add_all x members [] = ground arith
contains-add_all x members (name ∷ names) =
    ground (arith, contains-add_all x (add members name) names, contains-add x name members)

-- The names that a value of `synchronous_standby_names` waits for.
abbrev pub names_of : Text → CaseInsensitiveSet
names_of value = (parsed value).members

names_of-ssn :
    (value : Text) (kind : SyncType) (n : ℕ) (names : List Text)
    → parse_sync_standby_names value ≡ some (ssn_of kind n names)
    → IsWithin names (names_of value)
unfolding parsed
names_of-ssn value kind n names e x h =
    ap
      (λ (o : Option Ssn).
        contains x (elim o as (λ _. Ssn) [ none ↦ empty_ssn | some ssn ↦ ssn ]).members)
      e
    ∙ contains-add_all x [] names
    ∙ h

-- The value without a parameter is empty.
abbrev pub value_of_param : Option Text → Text
value_of_param none = []
value_of_param (some value) = value

param_of-one :
    (w : Writing) (name : Text)
    → w.is_quorum_commit_mode ≡ false
    → param_of w (name ∷ []) none ≡ some name
unfolding param_of join_names
param_of-one w name q = elim (Bool-cases w.supports_multiple_sync) [
  | inl m ↦ rw (m, q) refl
  | inr m ↦ rw m refl
]

length-map : (f : Text → Text) (names : List Text) → length (map f names) ≡ length names
length-map f [] = refl
length-map f (name ∷ names) = ap suc (length-map f names)

param_of-many :
    (w : Writing) (a b : Text) (names : List Text)
    → w.is_quorum_commit_mode ≡ false
    → w.supports_multiple_sync ≡ true
    → param_of w (map quote_standby_name (a ∷ b ∷ names)) none
      ≡ some (num_text (length (a ∷ b ∷ names)) (a ∷ b ∷ names))
unfolding param_of
param_of-many w a b names q m =
    rw (m, q, two (length (map quote_standby_name names))) refl
    ∙ ap
        (λ n. some (
          format_int (pos n)
          ++ (codes " (" ++ (join_names (map quote_standby_name (a ∷ b ∷ names)) ++ codes ")"))))
        (length-map quote_standby_name (a ∷ b ∷ names))

param_of-IsWithin :
    (w : Writing) (names : List Text)
    → w.is_quorum_commit_mode ≡ false
    → is_settable w.supports_multiple_sync names ≡ true
    → IsWithin names (names_of (value_of_param (param_of w (map quote_standby_name names) none)))
param_of-IsWithin w [] q h = λ x e. absurd (none_in x e)
  where
    none_in : (x : Text) → contains x [] ≡ true → ⊥
    none_in x e = cc
param_of-IsWithin w (name ∷ []) q h =
    subst (λ v. IsWithin (name ∷ []) (names_of (value_of_param v)))
      (sym (param_of-one w (quote_standby_name name) q))
      (names_of-ssn (quote_standby_name name) SyncType.priority 1 (name ∷ []) (
        parse-name name
          (and-eq-true _ _ (readable_of_usable (name ∷ []) (settable-usable _ _ h))).0))
param_of-IsWithin w (a ∷ b ∷ names) q h =
    subst (λ v. IsWithin (a ∷ b ∷ names) (names_of (value_of_param v)))
      (sym (param_of-many w a b names q (settable-multiple _ a b names h)))
      (names_of-ssn (num_text (length (a ∷ b ∷ names)) (a ∷ b ∷ names)) SyncType.priority
        (length (a ∷ b ∷ names)) (a ∷ b ∷ names)
        (parse-num_text (length (a ∷ b ∷ names)) a (b ∷ names)
          (readable_of_usable (a ∷ b ∷ names) (settable-usable _ _ h))))

quoted_names-none :
    (names : List Text)
    → every is_usable names ≡ true
    → quoted_names names none ≡ map quote_standby_name (sorted names)
unfolding has_asterisk
quoted_names-none names h =
    quoted_names-if names none
    ∙ ap (λ b. if b || false then codes "*" ∷ [] else map quote_standby_name (sorted names))
        (no_star names h)

-- Names that are given are names that are waited for.
pub sync_param-IsWithin :
    (w : Writing) (names : List Text)
    → w.is_quorum_commit_mode ≡ false
    → is_settable w.supports_multiple_sync names ≡ true
    → IsWithin names (names_of (value_of_param (sync_param w names none)))
unfolding sync_param
sync_param-IsWithin w names q h x e =
    subst (λ ns. contains x (names_of (value_of_param (param_of w ns none))) ≡ true)
      (sym (quoted_names-none names (settable-usable _ _ h)))
      (param_of-IsWithin w (sorted names) q (settable-sorted w.supports_multiple_sync names ∙ h) x
        (some_of-sorted (same_key x) names ∙ e))
