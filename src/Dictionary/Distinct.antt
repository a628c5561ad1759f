-- ===== src/Dictionary/Distinct.antt =====
-- What the dictionary lists, and that its keys stay distinct up to case.
use area.Common.{
  ◌≡◌, refl, ap, ◌∙◌, inl, inr, arith, Bool-cases, and-eq-true, Bool, true, false, not, Option,
  none, some, [], ◌∷◌, some_of, Text, lower, eq_text,
}
use area.Collections.{same_key}
use area.Collections.Laws.{same_key_symm, same_key_refl}
use area.Dictionary.{Entry, CaseInsensitiveDict, get_item, set_item, del_item, keys}
use area.Dictionary.Laws.{distinct, get_item-set_item, get_item-absent, Deleted, del_item-Deleted}

abbrev pub has_value : {A : Type 0} → Option A → Bool
has_value none = false
has_value (some v) = true

module _ {V : Type 0} where
  present : CaseInsensitiveDict V → Text → Bool
  present d key = some_of (λ e. same_key key e.key) d

  present-get_item :
      (d : CaseInsensitiveDict V) (key : Text) → present d key ≡ has_value (get_item d key)
  unfolding present get_item
  present-get_item [] key = refl
  present-get_item (e ∷ d) key = elim (Bool-cases (same_key key e.key)) [
    | inl h ↦ rw h refl
    | inr h ↦ rw h (present-get_item d key)
  ]

  pub keys-get_item :
      (d : CaseInsensitiveDict V) (key : Text)
      → some_of (eq_text (lower key)) (keys d) ≡ has_value (get_item d key)
  unfolding keys get_item same_key
  keys-get_item [] key = refl
  keys-get_item (e ∷ d) key = elim (Bool-cases (eq_text (lower key) (lower e.key))) [
    | inl h ↦ rw h refl
    | inr h ↦ rw h (keys-get_item d key)
  ]

  -- Distinctness, one entry at a time.
  distinct-cons :
      (e : Entry V) (d : CaseInsensitiveDict V)
      → get_item d e.key ≡ none
      → distinct d ≡ true
      → distinct (e ∷ d) ≡ true
  unfolding distinct present
  distinct-cons e d h k = rw (present-get_item d e.key ∙ ap has_value h, k) refl

  distinct-head :
      (e : Entry V) (d : CaseInsensitiveDict V)
      → distinct (e ∷ d) ≡ true
      → (get_item d e.key ≡ none) × (present d e.key ≡ false) × (distinct d ≡ true)
  unfolding distinct present
  distinct-head e d h =
      let (a, b) = and-eq-true (not (present d e.key)) (distinct d) h in
      let c : present d e.key ≡ false = ground (arith, a) in
      (get_item-absent d e.key e.key c (same_key_refl e.key), c, b)

  pub set_item-distinct :
      (d : CaseInsensitiveDict V) (key : Text) (value : V)
      → distinct d ≡ true
      → distinct (set_item d key value) ≡ true
  unfolding set_item
  set_item-distinct [] key value h = distinct-cons _ [] (unfold get_item in refl) h
  set_item-distinct (e ∷ d) key value h =
      let (a, b, c) = distinct-head e d h in
      elim (Bool-cases (same_key key e.key)) [
        | inl k ↦ rw k (distinct-cons _ d (get_item-absent d e.key key (unfold present in b) k) c)
        | inr k ↦ rw k (
            distinct-cons e (set_item d key value)
              (get_item-set_item d key value e.key ∙ rw (same_key_symm e.key key ∙ k) a)
              (set_item-distinct d key value c))
      ]

  pub del_item-has_value :
      (d : CaseInsensitiveDict V) (key : Text)
      → has_value (del_item d key) ≡ has_value (get_item d key)
  unfolding del_item get_item
  del_item-has_value [] key = refl
  del_item-has_value (e ∷ d) key = elim (Bool-cases (same_key key e.key)) [
    | inl k ↦ rw k refl
    | inr k ↦ rw k (go (del_item d key) (del_item-has_value d key))
  ]
    where
      go :
          (o : Option (CaseInsensitiveDict V))
          → has_value o ≡ has_value (get_item d key)
          → has_value (elim o as (λ _. Option (CaseInsensitiveDict V)) [
            | none ↦ none
            | some d' ↦ some (e ∷ d')
          ])
            ≡ has_value (get_item d key)
      go none h = h
      go (some d') h = h

  abbrev pub Kept : Option (CaseInsensitiveDict V) → Type 0
  Kept none = Unit
  Kept (some d) = distinct d ≡ true

  pub del_item-Kept :
      (d : CaseInsensitiveDict V) (key : Text) → distinct d ≡ true → Kept (del_item d key)
  unfolding del_item
  del_item-Kept [] key h = tt
  del_item-Kept (e ∷ d) key h =
      let (a, b, c) = distinct-head e d h in
      elim (Bool-cases (same_key key e.key)) [
        | inl k ↦ rw k c
        | inr k ↦ rw k (
            go (del_item d key) (same_key_symm e.key key ∙ k) a (del_item-Kept d key c)
              (del_item-Deleted d key c))
      ]
    where
      go :
          (o : Option (CaseInsensitiveDict V))
          → same_key e.key key ≡ false
          → get_item d e.key ≡ none
          → Kept o
          → Deleted d key o
          → Kept (elim o [ none ↦ none | some d' ↦ some (e ∷ d') ])
      go none k a c g = tt
      go (some d') k a c g = distinct-cons e d' (g e.key ∙ rw k a) c
