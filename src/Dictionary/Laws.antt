-- ===== src/Dictionary/Laws.antt =====
-- The dictionary is a map on keys up to case.
use area.Common.{
  ◌≡◌, refl, sym, ap, ◌∙◌, inl, inr, arith, Bool-cases, and-eq-true, Bool, true, false, not, ◌&&◌,
  ◌||◌, Option, none, some, List, [], ◌∷◌, ◌++◌, some_of, Text, if◌then◌else◌,
}
use area.Collections.{same_key}
use area.Collections.Laws.{same_key-congr, same_key_symm}
use area.Dictionary.{Entry, CaseInsensitiveDict, get_item, set_item, del_item, update, copy}

-- A key that agrees with one of two agreeing keys agrees with the other.
same_key-right : (a b c : Text) → same_key a b ≡ true → same_key c b ≡ same_key c a
same_key-right a b c h = same_key_symm c b ∙ sym (same_key-congr a b c h) ∙ same_key_symm a c

or-eq-false : (a b : Bool) → (a || b) ≡ false → (a ≡ false) × (b ≡ false)
or-eq-false a b h = ground arith

same_key-differ : (a b c : Text) → same_key a b ≡ false → same_key c a ≡ true → same_key c b ≡ false
same_key-differ a b c h k = same_key-congr c a b k ∙ h

module _ {V : Type 0} where
  -- No two keys agree up to case.
  unfoldable pub distinct : CaseInsensitiveDict V → Bool
  distinct [] = true
  distinct (e ∷ d) = not (some_of (λ f. same_key e.key f.key) d) && distinct d

  -- After an assignment the key has the value in every spelling, and the other keys have what they had.
  pub get_item-set_item :
      (d : CaseInsensitiveDict V) (key : Text) (value : V) (other : Text)
      → get_item (set_item d key value) other
        ≡ (if same_key other key then some value else get_item d other)
  unfolding get_item set_item
  get_item-set_item [] key value other = refl
  get_item-set_item (e ∷ d) key value other = elim (Bool-cases (same_key key e.key)) [
    | inl k ↦ elim (Bool-cases (same_key other key)) [
      | inl a ↦ rw (k, a)
      | inr a ↦ rw (k, a, same_key-right key e.key other k, a)
    ]
    | inr k ↦ elim (Bool-cases (same_key other key)) [
      | inl a ↦
          rw (k, a, same_key-differ key e.key other k a, get_item-set_item d key value other, a)
      | inr a ↦ rw (k, a, get_item-set_item d key value other, a)
    ]
  ]

  set_item-new :
      (d : CaseInsensitiveDict V) (e : Entry V)
      → some_of (λ f. same_key e.key f.key) d ≡ false
      → set_item d e.key e.value ≡ d ++ e ∷ []
  unfolding set_item
  set_item-new [] e h = refl
  set_item-new (f ∷ d) e h = elim (Bool-cases (same_key e.key f.key)) [
    | inl k ↦ cc
    | inr k ↦ rw (k, set_item-new d e (rw k at h))
  ]

  append_assoc :
      (d : CaseInsensitiveDict V) (e : Entry V) (es : List (Entry V))
      → (d ++ e ∷ []) ++ es ≡ d ++ e ∷ es
  append_assoc [] e es = refl
  append_assoc (f ∷ d) e es = ap (λ r. f ∷ r) (append_assoc d e es)

  absent :
      (e : Entry V) (es : List (Entry V)) (f : Entry V) (d : CaseInsensitiveDict V)
      → some_of (λ g. same_key f.key g.key) (d ++ e ∷ es) ≡ false
      → same_key e.key f.key ≡ false
  absent e es f [] h =
      let (a, _) = or-eq-false (same_key f.key e.key) (some_of (λ g. same_key f.key g.key) es) h in
      same_key_symm e.key f.key ∙ a
  absent e es f (g ∷ d) h =
      let (_, b) =
        or-eq-false (same_key f.key g.key) (some_of (λ g. same_key f.key g.key) (d ++ e ∷ es)) h in
      absent e es f d b

  distinct-middle :
      (d : CaseInsensitiveDict V) (e : Entry V) (es : List (Entry V))
      → distinct (d ++ e ∷ es) ≡ true
      → some_of (λ f. same_key e.key f.key) d ≡ false
  unfolding distinct
  distinct-middle [] e es h = refl
  distinct-middle (f ∷ d) e es h =
      let (a, b) =
        and-eq-true (not (some_of (λ g. same_key f.key g.key) (d ++ e ∷ es)))
          (distinct (d ++ e ∷ es)) h in
      rw (absent e es f d (not-true a), distinct-middle d e es b)
    where
      not-true : {b : Bool} → not b ≡ true → b ≡ false
      not-true k = ground arith

  update-distinct :
      (d : CaseInsensitiveDict V) (es : List (Entry V))
      → distinct (d ++ es) ≡ true
      → update d es ≡ d ++ es
  unfolding update
  update-distinct d [] h = append_nil d
    where
      append_nil : (d : CaseInsensitiveDict V) → d ≡ d ++ []
      append_nil [] = refl
      append_nil (e ∷ d) = ap (λ r. e ∷ r) (append_nil d)
  update-distinct d (e ∷ es) h =
      ap (λ d'. update d' es) (set_item-new d e (distinct-middle d e es h))
      ∙ update-distinct (d ++ e ∷ []) es (ap distinct (append_assoc d e es) ∙ h)
      ∙ append_assoc d e es

  -- A copy of a dictionary whose keys differ up to case has its items in its order.
  pub copy-eq : (d : CaseInsensitiveDict V) → distinct d ≡ true → copy d ≡ d
  unfolding copy
  copy-eq d h = update-distinct [] d h

  pub get_item-absent :
      (d : CaseInsensitiveDict V) (key other : Text)
      → some_of (λ f. same_key key f.key) d ≡ false
      → same_key other key ≡ true
      → get_item d other ≡ none
  unfolding get_item
  get_item-absent [] key other h k = refl
  get_item-absent (e ∷ d) key other h k =
      let (a, b) = or-eq-false (same_key key e.key) (some_of (λ f. same_key key f.key) d) h in
      rw (same_key-differ key e.key other a k) (get_item-absent d key other b k)

  first-Deleted :
      (e : Entry V) (d : CaseInsensitiveDict V) (key other : Text)
      → distinct (e ∷ d) ≡ true
      → same_key key e.key ≡ true
      → get_item d other ≡ (if same_key other key then none else get_item (e ∷ d) other)
  unfolding get_item distinct
  first-Deleted e d key other h k =
      let (a, _) = and-eq-true (not (some_of (λ f. same_key e.key f.key) d)) (distinct d) h in
      let b : some_of (λ f. same_key e.key f.key) d ≡ false = ground arith in
      let r = same_key-right key e.key other k in
      elim (Bool-cases (same_key other key)) [
        | inl o ↦ rw o (get_item-absent d e.key other b (r ∙ o))
        | inr o ↦ rw (o, r, o)
      ]

  later-Deleted :
      (e : Entry V) (d d' : CaseInsensitiveDict V) (key other : Text)
      → same_key key e.key ≡ false
      → get_item d' other ≡ (if same_key other key then none else get_item d other)
      → get_item (e ∷ d') other ≡ (if same_key other key then none else get_item (e ∷ d) other)
  unfolding get_item
  later-Deleted e d d' key other k g = elim (Bool-cases (same_key other key)) [
    | inl o ↦ rw (o, same_key-differ key e.key other k o) (rw o at g)
    | inr o ↦ rw (o, g, o)
  ]

  -- What a deletion leaves, if the key was there.
  abbrev pub Deleted : CaseInsensitiveDict V → Text → Option (CaseInsensitiveDict V) → Type 0
  Deleted d key none = get_item d key ≡ none
  Deleted d key (some d') =
      (other : Text) → get_item d' other ≡ (if same_key other key then none else get_item d other)

  -- A deletion from a dictionary whose keys differ up to case raises a KeyError only if the key is
  -- missing; otherwise the key is missing afterwards in every spelling, and the other keys have what
  -- they had.
  pub del_item-Deleted :
      (d : CaseInsensitiveDict V) (key : Text) → distinct d ≡ true → Deleted d key (del_item d key)
  unfolding del_item get_item distinct
  del_item-Deleted [] key h = refl
  del_item-Deleted (e ∷ d) key h = elim (Bool-cases (same_key key e.key)) [
    | inl k ↦ rw k (λ other. first-Deleted e d key other h k)
    | inr k ↦
        let (_, b) = and-eq-true (not (some_of (λ f. same_key e.key f.key) d)) (distinct d) h in
        rw k (go (del_item d key) k (del_item-Deleted d key b))
  ]
    where
      go :
          (o : Option (CaseInsensitiveDict V))
          → same_key key e.key ≡ false
          → Deleted d key o
          → Deleted (e ∷ d) key (elim o [ none ↦ none | some d' ↦ some (e ∷ d') ])
      go none k g = rw k g
      go (some d') k g = λ other. later-Deleted e d d' key other k (g other)
