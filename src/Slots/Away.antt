-- ===== src/Slots/Away.antt =====
-- While a member is away, the other nodes keep its slot.
use area.Common.{
  ℤ, pos, ◌+ℤ◌, ◌<ℤ◌, leb_ℤ, ◌≡◌, refl, sym, ap, ◌∙◌, inl, inr, arith, Bool-cases, Bool, true,
  false, not, ◌&&◌, ◌||◌, Option, none, some, List, [], ◌∷◌, ◌++◌, map, is_empty, Text, eq_text,
  eq_of_eq_text, eq_text_refl, ltb_text, if◌then◌else◌,
}
use area.Sync.Names.{insert, sorted}
use area.Tags.{nofailover}
use area.Cluster.Member.{Member}
use area.Cluster.View.{Cluster}
use area.Slots.Name.{slot_name_from_member_name}
use area.Slots.Wanted.{Slots, retained, has_slot, assign_slot, SlotSettings}
use area.Slots.Replication.{
  Asked, permanent_physical_slots, slot_members, add_members, add_retained, get_members_slots,
  get_permanent_slots, get_replication_slots,
}
use area.Slots.Kept.{
  pick-has, assign_slot-has, assign_slot-new, add_retained-has, merge_permanent_slots-has,
}
use area.Slots.Retain.{
  RetainSlots, found_self, slots_of_members, is_listed, retain, build_retain_slots,
}
use area.Slots.Retention.{
  Call, seen_since, InTime, retain_all, retain-new, retain-seen, retain_all-seen,
}

is_listed-insert :
    (name s : Text) (ss : List Text)
    → is_listed name (insert s ss) ≡ (eq_text name s || is_listed name ss)
unfolding insert
is_listed-insert name s [] = refl
is_listed-insert name s (t ∷ ss) = elim (Bool-cases (ltb_text t s)) [
  | inl e ↦ rw (e, is_listed-insert name s ss) (ground arith)
  | inr e ↦ rw e refl
]

is_listed-sorted : (name : Text) (ss : List Text) → is_listed name (sorted ss) ≡ is_listed name ss
unfolding sorted
is_listed-sorted name [] = refl
is_listed-sorted name (s ∷ ss) =
    is_listed-insert name s (sorted ss) ∙ ap (λ b. eq_text name s || b) (is_listed-sorted name ss)

seen-is_listed :
    (name : Text) (time : ℤ) (last : RetainSlots)
    → seen_since name time last ≡ true
    → is_listed name (map (λ s. s.0) last) ≡ true
seen-is_listed name time [] h = h
seen-is_listed name time (s ∷ last) h = ground (arith, seen-is_listed name time last)

abbrev pub or_none : Option (List Text) → List Text
or_none none = []
or_none (some names) = names

listed-or_none : (names : List Text) → or_none (if is_empty names then none else some names) ≡ names
listed-or_none [] = refl
listed-or_none (name ∷ names) = refl

module _ {Version : Type 0} (g : SlotSettings) where
  build_retain_slots-listed :
      (own : Text) (f : Call Version) (last : RetainSlots) (name : Text) (time : ℤ)
      → leb_ℤ time f.time ≡ true
      → f.time <ℤ time +ℤ g.member_slots_ttl
      → seen_since name time last ≡ true
      → is_listed name (or_none (build_retain_slots g own f.time f.view f.slots last)) ≡ true
  unfolding build_retain_slots
  build_retain_slots-listed own f last name time a b k =
      let kept = retain g own f.time f.view f.slots last in
      ap (is_listed name) (listed-or_none (sorted (map (λ s. s.0) kept)))
      ∙ is_listed-sorted name (map (λ s. s.0) kept)
      ∙ seen-is_listed name time kept (retain-seen g own f.time f.view f.slots last name time a b k)

  add_retained-new :
      (c : Cluster Version) (a : Asked) (retain_slots : List Text) (members slots : Slots)
      (name : Text)
      → nofailover a.tags ≡ false
      → eq_text name (slot_name_from_member_name a.name) ≡ false
      → is_listed name retain_slots ≡ true
      → (has_slot members name ≡ true → has_slot slots name ≡ true)
      → has_slot (add_retained g c a members slots retain_slots) name ≡ true
  unfolding add_retained
  add_retained-new c a [] members slots name n o h k = cc
  add_retained-new c a (slot ∷ rest) members slots name n o h k =
      elim (Bool-cases (eq_text name slot)) [
        | inl e ↦
            let same = eq_of_eq_text name slot e in
            elim (Bool-cases (has_slot members slot)) [
              | inl p ↦
                  rw (n, p)
                    (add_retained-has g c a rest members slots name
                      (k (ap (has_slot members) same ∙ p)))
              | inr p ↦
                  rw (n, p, ap (λ s. eq_text s (slot_name_from_member_name a.name)) (sym same) ∙ o)
                    (add_retained-has g c a rest members (assign_slot slots slot retained) name (
                      ap (has_slot (assign_slot slots slot retained)) same
                      ∙ assign_slot-new slots slot retained))
            ]
        | inr e ↦
            let listed = rw e at h in
            pick-has
              (not (nofailover a.tags)
                && not (has_slot members slot)
                && not (eq_text slot (slot_name_from_member_name a.name)))
              (add_retained g c a members (assign_slot slots slot retained) rest)
              (add_retained g c a members slots rest) name
              (add_retained-new c a rest members (assign_slot slots slot retained) name n o listed
                (λ p. assign_slot-has slots slot retained name (k p)))
              (add_retained-new c a rest members slots name n o listed k)
      ]

  get_replication_slots-retained :
      (c : Cluster Version) (leader_is_old : Bool) (a : Asked) (name : Text)
      → g.use_slots ≡ true
      → nofailover a.tags ≡ false
      → eq_text name (slot_name_from_member_name a.name) ≡ false
      → is_listed name c.status.retain_slots ≡ true
      → has_slot (get_replication_slots g c leader_is_old a) name ≡ true
  unfolding get_replication_slots get_members_slots
  get_replication_slots-retained c old a name u n o h =
      let members = add_members g c old a [] (slot_members g c a) in
      merge_permanent_slots-has g c a (get_permanent_slots g c a) (get_members_slots g c old a, [])
        name (rw u (add_retained-new c a c.status.retain_slots members members name n o h (λ p. p)))

  -- Let the leader see the slot of a member, not a permanent one, at one call, and let the later calls
  -- be before the time to live has passed. Then each other node that may take over has a slot with that
  -- name as long as it sees what the last call returned, whether or not the member is there.
  pub away-has_slot :
      (own : Text) (first : Call Version) (calls : List (Call Version)) (final : Call Version)
      (last : RetainSlots) (c : Cluster Version) (leader_is_old : Bool) (a : Asked) (name : Text)
      → is_listed name first.slots ≡ true
      → is_listed name (slots_of_members own first.view.members) ≡ true
      → is_listed name (map (λ s. s.0) (permanent_physical_slots g first.view)) ≡ false
      → pos 0 <ℤ g.member_slots_ttl
      → InTime g own first.time calls
      → leb_ℤ first.time final.time ≡ true
      → final.time <ℤ first.time +ℤ g.member_slots_ttl
      → c.status.retain_slots
        ≡ or_none (
            build_retain_slots g own final.time final.view final.slots
              (retain_all g own (first ∷ calls) last))
      → g.use_slots ≡ true
      → nofailover a.tags ≡ false
      → eq_text name (slot_name_from_member_name a.name) ≡ false
      → has_slot (get_replication_slots g c leader_is_old a) name ≡ true
  away-has_slot own first calls final last c old a name l m p t i b e s u n o =
      let seen = retain-new g own first.time first.view first.slots last name l m p t in
      get_replication_slots-retained c old a name u n o (
        ap (is_listed name) s
        ∙ build_retain_slots-listed own final (retain_all g own (first ∷ calls) last) name
            first.time b e
            (retain_all-seen g own calls (retain g own first.time first.view first.slots last) name
              first.time i seen))

found_self-last :
    (own : Text) (found : Bool) (ms : List Member) (m : Member)
    → found_self own found (ms ++ m ∷ []) ≡ eq_text m.name own
unfolding found_self
found_self-last own found [] m = refl
found_self-last own found (n ∷ ms) m = found_self-last own (eq_text n.name own) ms m

-- The leader's own slot name counts as one of a member that streams, whatever tags the leader has,
-- unless the leader is the last in the list of members.
pub slots_of_members-own :
    (own : Text) (ms : List Member) (m : Member)
    → eq_text m.name own ≡ false
    → is_listed (slot_name_from_member_name own) (slots_of_members own (ms ++ m ∷ [])) ≡ true
unfolding slots_of_members
slots_of_members-own own ms m h =
    rw (found_self-last own false ms m, h, eq_text_refl (slot_name_from_member_name own)) refl
