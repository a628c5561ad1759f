-- ===== src/Slots/Walk.antt =====
-- The walk up the chain ends, and ends where it should.
use area.Common.{
  ℕ, zero, suc, ◌≤◌, ◌<◌, ◌≡◌, sym, ap, subst, inl, inr, arith, Bool-cases, Option-cases, Bool,
  true, false, not, ◌&&◌, Option, none, some, List, [], ◌∷◌, some_of, is_empty, length, Text,
  eq_text, eq_text_refl, if◌then◌else◌,
}
use area.Slots.Name.{slot_name_from_member_name}
use area.Slots.Cascade.{upstream, follow, get_slot_name_on_primary}
use area.Tags.{Tags, nostream, replicatefrom}
use area.Cluster.Member.{Member}
use area.Cluster.View.{get_member}

abbrev seen : List Text → Text → Bool
seen names name = some_of (eq_text name) names

-- How many members have not been seen.
unseen : List Member → List Text → ℕ
unseen [] names = 0
unseen (m ∷ ms) names = let rest = unseen ms names in if seen names m.name then rest else suc rest

unseen-le-length : (ms : List Member) (names : List Text) → unseen ms names ≤ length ms
unfolding unseen
unseen-le-length [] names = omega arith
unseen-le-length (m ∷ ms) names = ground (arith, unseen-le-length ms names)

unseen-more :
    (ms : List Member) (name : Text) (names : List Text)
    → unseen ms (name ∷ names) ≤ unseen ms names
unfolding unseen
unseen-more [] name names = omega arith
unseen-more (m ∷ ms) name names = ground (arith, unseen-more ms name names)

abbrev name_of : Member → Option Member → Text
name_of m none = m.name
name_of m (some n) = n.name

unseen-less :
    (x : Text) (ms : List Member) (names : List Text) {m : Member}
    → get_member x ms ≡ some m
    → seen names m.name ≡ false
    → unseen ms (m.name ∷ names) < unseen ms names
unfolding unseen get_member
unseen-less x [] names g h = cc
unseen-less x (n ∷ ms) names {m} g h = elim (Bool-cases (eq_text n.name x)) [
  | inl e ↦ found (rw e at g)
  | inr e ↦ later (unseen-less x ms names (rw e at g) h)
]
  where
    found : some n ≡ some m → unseen (n ∷ ms) (m.name ∷ names) < unseen (n ∷ ms) names
    found k =
        let q : n.name ≡ m.name = ap (name_of m) k in
        let t : eq_text n.name m.name ≡ true =
          subst (λ y. eq_text n.name y ≡ true) q (eq_text_refl n.name) in
        let f : seen names n.name ≡ false = subst (λ y. seen names y ≡ false) (sym q) h in
        rw (t, f) (omega (arith, unseen-more ms m.name names))

    later :
        unseen ms (m.name ∷ names) < unseen ms names
        → unseen (n ∷ ms) (m.name ∷ names) < unseen (n ∷ ms) names
    later k = ground arith

upstream-eq-some :
    (ms : List Member) (name : Text) (tags : Tags) {m : Member}
    → upstream ms name tags ≡ some m
    → (x : Text) × (get_member x ms ≡ some m)
unfolding upstream
upstream-eq-some ms name tags {m} h = go (replicatefrom tags) h
  where
    go :
        (o : Option Text)
        → elim o [
          | none ↦ none
          | some from ↦
              if not (is_empty from) && not (eq_text from name) then get_member from ms else none
        ]
          ≡ some m
        → (x : Text) × (get_member x ms ≡ some m)
    go none h = cc
    go (some from) h = elim (Bool-cases (not (is_empty from) && not (eq_text from name))) [
      | inl e ↦ (from, rw e at h)
      | inr e ↦ absurd (none_some (rw e at h))
    ]
      where
        none_some : none ≡ some m → ⊥
        none_some k = cc

-- The nodes above a node: those passed on the way, and the one that is reached.
pub data Climbs (members : List Member) (name : Text) (tags : Tags)
    : List Text → Text → Tags → Type 0 where
  start : Climbs members name tags [] name tags
  up :
      {names : List Text} {n : Text} {t : Tags} (m : Member)
      → Climbs members name tags names n t
      → nostream t ≡ false
      → upstream members n t ≡ some m
      → Climbs members name tags (n ∷ names) m.name m.tags

-- The answer for a node: the slot of a node that replicates from no known member, or no slot because
-- of a node that does not stream, or because the chain comes back to a node.
pub data Answer (members : List Member) (name : Text) (tags : Tags) : Option Text → Type 0 where
  top :
      {names : List Text} {n : Text} {t : Tags}
      → Climbs members name tags names n t
      → nostream t ≡ false
      → upstream members n t ≡ none
      → Answer members name tags (some (slot_name_from_member_name n))
  streamless :
      {names : List Text} {n : Text} {t : Tags}
      → Climbs members name tags names n t
      → nostream t ≡ true
      → Answer members name tags none
  cycle :
      {names : List Text} {n : Text} {t : Tags} (m : Member)
      → Climbs members name tags names n t
      → nostream t ≡ false
      → upstream members n t ≡ some m
      → some_of (eq_text m.name) (n ∷ names) ≡ true
      → Answer members name tags none

module _ (members : List Member) (first : Text) (first_tags : Tags) where
  follow-Answer :
      (fuel : ℕ) (names : List Text) (name : Text) (tags : Tags)
      → Climbs members first first_tags names name tags
      → unseen members (name ∷ names) < fuel
      → (r : Option Text) × (follow fuel members names name tags ≡ some r)
        × Answer members first first_tags r
  unfolding follow
  follow-Answer zero names name tags c h = absurd (omega arith)
  follow-Answer (suc fuel) names name tags c h = elim (Bool-cases (nostream tags)) [
    | inl e ↦ (none, rw e, streamless c e)
    | inr e ↦ elim (Option-cases (upstream members name tags)) [
      | inl u ↦ (some (slot_name_from_member_name name), rw (u, e), top c e u)
      | inr (m, u) ↦ elim (Bool-cases (seen (name ∷ names) m.name)) [
        | inl b ↦ (none, rw (u, e, b), cycle m c e u b)
        | inr b ↦
            let (x, g) = upstream-eq-some members name tags u in
            let less = unseen-less x members (name ∷ names) g b in
            let (r, k, a) =
              follow-Answer fuel (name ∷ names) m.name m.tags (up m c e u) (omega arith) in
            (r, rw (u, e, b, k), a)
      ]
    ]
  ]

-- The walk always ends, with the slot of a node that is reached over streaming nodes and replicates
-- from no known member, or with no slot because a node that is reached does not stream or replicates
-- from one that was passed.
pub get_slot_name_on_primary-Answer :
    (members : List Member) (name : Text) (tags : Tags)
    → (r : Option Text) × (get_slot_name_on_primary members name tags ≡ some r)
      × Answer members name tags r
unfolding get_slot_name_on_primary
get_slot_name_on_primary-Answer members name tags =
    let le = unseen-le-length members (name ∷ []) in
    follow-Answer members name tags (suc (length members)) [] name tags start (omega arith)
