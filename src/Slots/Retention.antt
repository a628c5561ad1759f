-- ===== src/Slots/Retention.antt =====
-- A slot of a member that is away is retained for its time to live, and no longer.
use area.Common.{
  ℤ, pos, ◌+ℤ◌, ◌≤ℤ◌, ◌<ℤ◌, leb_ℤ, int_laws, ◌≡◌, refl, sym, subst, ap, ◌∙◌, inl, inr, arith,
  Bool-cases, Bool, true, false, not, ◌&&◌, ◌||◌, List, [], ◌∷◌, map, some_of, is_empty, Text,
  eq_text, eq_of_eq_text, eq_text_refl, if◌then◌else◌,
}
use area.Cluster.View.{Cluster}
use area.Slots.Wanted.{SlotSettings}
use area.Slots.Replication.{permanent_physical_slots}
use area.Slots.Retain.{RetainSlots, stamp, slots_of_members, is_listed, stamp_all, expire, retain}

-- The slot was seen at a time or later.
abbrev pub seen_since : Text → ℤ → RetainSlots → Bool
seen_since name time last = some_of (λ s. eq_text name s.0 && leb_ℤ time s.1) last

stamp-seen :
    (last : RetainSlots) (key name : Text) (time timestamp : ℤ)
    → leb_ℤ time timestamp ≡ true
    → seen_since name time last ≡ true
    → seen_since name time (stamp last key timestamp) ≡ true
unfolding stamp
stamp-seen [] key name time timestamp h k = cc
stamp-seen (s ∷ last) key name time timestamp h k = elim (Bool-cases (eq_text key s.0)) [
  | inl e ↦ rw (e, eq_of_eq_text key s.0 e) (ground arith)
  | inr e ↦ rw e (ground (arith, stamp-seen last key name time timestamp h))
]

stamp-new :
    (last : RetainSlots) (name : Text) (timestamp : ℤ)
    → seen_since name timestamp (stamp last name timestamp) ≡ true
unfolding stamp
stamp-new [] name timestamp = rw (eq_text_refl name) (ground arith)
stamp-new (s ∷ last) name timestamp = elim (Bool-cases (eq_text name s.0)) [
  | inl e ↦ rw (e, eq_text_refl name) (ground arith)
  | inr e ↦ rw (e, stamp-new last name timestamp) (ground arith)
]

pick :
    (name : Text) (time : ℤ) (b : Bool) (s t : RetainSlots)
    → seen_since name time s ≡ true
    → seen_since name time t ≡ true
    → seen_since name time (if b then s else t) ≡ true
pick name time true s t h k = h
pick name time false s t h k = k

stamp_all-seen :
    (slots members permanent : List Text) (timestamp : ℤ) (last : RetainSlots) (name : Text)
    (time : ℤ)
    → leb_ℤ time timestamp ≡ true
    → seen_since name time last ≡ true
    → seen_since name time (stamp_all members permanent timestamp last slots) ≡ true
unfolding stamp_all
stamp_all-seen [] members permanent timestamp last name time h k = k
stamp_all-seen (key ∷ slots) members permanent timestamp last name time h k =
    stamp_all-seen slots members permanent timestamp
      (if is_listed key members && not (is_listed key permanent)
        then stamp last key timestamp
        else last)
      name time h
      (pick name time (is_listed key members && not (is_listed key permanent))
        (stamp last key timestamp) last (stamp-seen last key name time timestamp h k) k)

pub stamp_all-new :
    (slots members permanent : List Text) (timestamp : ℤ) (last : RetainSlots) (name : Text)
    → is_listed name slots ≡ true
    → is_listed name members ≡ true
    → is_listed name permanent ≡ false
    → seen_since name timestamp (stamp_all members permanent timestamp last slots) ≡ true
unfolding stamp_all
stamp_all-new [] members permanent timestamp last name h m p = cc
stamp_all-new (key ∷ slots) members permanent timestamp last name h m p =
    elim (Bool-cases (eq_text name key)) [
      | inl e ↦
          let same = eq_of_eq_text name key e in
          let m' = ap (λ k. is_listed k members) (sym same) ∙ m in
          let p' = ap (λ k. is_listed k permanent) (sym same) ∙ p in
          rw (m', p')
            (stamp_all-seen slots members permanent timestamp (stamp last key timestamp) name
              timestamp (reflexive timestamp)
              (subst (λ k. seen_since k timestamp (stamp last key timestamp) ≡ true) (sym same)
                (stamp-new last key timestamp)))
      | inr e ↦ stamp_all-new slots members permanent timestamp _ name (rw e at h) m p
    ]
  where
    reflexive : (t : ℤ) → leb_ℤ t t ≡ true
    reflexive t = ground arith

le_of_leb : (a b : ℤ) → leb_ℤ a b ≡ true → a ≤ℤ b
le_of_leb a b h = ground arith

fresh :
    (ttl timestamp time last_seen : ℤ)
    → timestamp <ℤ time +ℤ ttl
    → leb_ℤ time last_seen ≡ true
    → leb_ℤ (last_seen +ℤ ttl) timestamp ≡ false
fresh ttl timestamp time last_seen h k = elim (Bool-cases (leb_ℤ (last_seen +ℤ ttl) timestamp)) [
  | inl e ↦
      let a = le_of_leb time last_seen k in
      let b = le_of_leb (last_seen +ℤ ttl) timestamp e in absurd (omega int_laws)
  | inr e ↦ e
]

pub expire-seen :
    (ttl timestamp : ℤ) (last : RetainSlots) (name : Text) (time : ℤ)
    → timestamp <ℤ time +ℤ ttl
    → seen_since name time last ≡ true
    → seen_since name time (expire ttl timestamp last) ≡ true
unfolding expire
expire-seen ttl timestamp [] name time h k = k
expire-seen ttl timestamp (s ∷ last) name time h k = elim (Bool-cases (leb_ℤ time s.1)) [
  | inl e ↦
      rw (fresh ttl timestamp time s.1 h e)
        (either (expire-seen ttl timestamp last name time h) (eq_text name s.0) (leb_ℤ time s.1) k)
  | inr e ↦
      let later =
        expire-seen ttl timestamp last name time h
          (other (eq_text name s.0) (leb_ℤ time s.1) e k) in
      elim (Bool-cases (leb_ℤ (s.1 +ℤ ttl) timestamp)) [
        | inl x ↦ rw x later
        | inr x ↦ rw (x, later) (ground arith)
      ]
]
  where
    other :
        (a b : Bool)
        → b ≡ false
        → ((a && b) || seen_since name time last) ≡ true
        → seen_since name time last ≡ true
    other a b e k = ground arith

    either :
        (seen_since name time last ≡ true → seen_since name time (expire ttl timestamp last) ≡ true)
        → (a b : Bool) → ((a && b) || seen_since name time last) ≡ true
        → ((a && b) || seen_since name time (expire ttl timestamp last)) ≡ true
    either f true true k = refl
    either f true false k = f k
    either f false b k = f k

-- A call of the leader: when, with which view and which slots.
pub record Call (Version : Type 0) : Type 0 where
  pub time : ℤ
  pub view : Cluster Version
  pub slots : List Text

module _ {Version : Type 0} (g : SlotSettings) (own : Text) where
  -- The calls in their order.
  abbrev pub retain_all : List (Call Version) → RetainSlots → RetainSlots
  retain_all [] last = last
  retain_all (c ∷ calls) last = retain_all calls (retain g own c.time c.view c.slots last)

  pub retain-seen :
      (timestamp : ℤ) (c : Cluster Version) (slots : List Text) (last : RetainSlots) (name : Text)
      (time : ℤ)
      → leb_ℤ time timestamp ≡ true
      → timestamp <ℤ time +ℤ g.member_slots_ttl
      → seen_since name time last ≡ true
      → seen_since name time (retain g own timestamp c slots last) ≡ true
  unfolding retain
  retain-seen timestamp c slots last name time h f k =
      let permanent = map (λ s. s.0) (permanent_physical_slots g c) in
      let members = slots_of_members own c.members in
      let stamped = stamp_all members permanent timestamp last slots in
      expire-seen g.member_slots_ttl timestamp (if is_empty slots then last else stamped) name time
        f
        (pick name time (is_empty slots) last stamped k
          (stamp_all-seen slots members permanent timestamp last name time h k))

  -- A member's slot that exists is seen.
  pub retain-new :
      (timestamp : ℤ) (c : Cluster Version) (slots : List Text) (last : RetainSlots) (name : Text)
      → is_listed name slots ≡ true
      → is_listed name (slots_of_members own c.members) ≡ true
      → is_listed name (map (λ s. s.0) (permanent_physical_slots g c)) ≡ false
      → pos 0 <ℤ g.member_slots_ttl
      → seen_since name timestamp (retain g own timestamp c slots last) ≡ true
  unfolding retain
  retain-new timestamp c [] last name l m p t = cc
  retain-new timestamp c (slot ∷ slots) last name l m p t =
      let permanent = map (λ s. s.0) (permanent_physical_slots g c) in
      let members = slots_of_members own c.members in
      expire-seen g.member_slots_ttl timestamp
        (stamp_all members permanent timestamp last (slot ∷ slots)) name timestamp (omega int_laws)
        (stamp_all-new (slot ∷ slots) members permanent timestamp last name l m p)

  -- The calls lie in the time to live of a time.
  abbrev pub InTime : ℤ → List (Call Version) → Type 0
  InTime time [] = Unit {0}
  InTime time (c ∷ calls) =
      (leb_ℤ time c.time ≡ true) × (c.time <ℤ time +ℤ g.member_slots_ttl) × InTime time calls

  pub retain_all-seen :
      (calls : List (Call Version)) (last : RetainSlots) (name : Text) (time : ℤ)
      → InTime time calls
      → seen_since name time last ≡ true
      → seen_since name time (retain_all calls last) ≡ true
  retain_all-seen [] last name time h k = k
  retain_all-seen (c ∷ calls) last name time (a, b, rest) k =
      retain_all-seen calls (retain g own c.time c.view c.slots last) name time rest
        (retain-seen c.time c.view c.slots last name time a b k)
