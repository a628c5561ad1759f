-- ===== src/Slots/Kept.antt =====
-- A standby finds its slot on the node that it streams from.
use mathlib.Core.List.{Memᴰ}
use area.Common.{
  pos, ltb_ℤ, ◌≡◌, refl, subst, ap, ◌∙◌, ◌⊎◌, inl, inr, arith, Bool-cases, Bool, true, false, not,
  ◌&&◌, ◌||◌, none, some, List, [], ◌∷◌, keep, Text, eq_text, eq_of_eq_text, eq_text_refl,
  if◌then◌else◌,
}
use area.Sync.State.{is_set}
use area.Tags.{nostream, nofailover, replicatefrom}
use area.Cluster.Member.{Member}
use area.Cluster.View.{Cluster, leader_name, has_member}
use area.Slots.Name.{slot_name_from_member_name}
use area.Slots.Wanted.{
  leads, Options, PermanentValue, blank, bad, options, PermanentSlots, Slot, retained,
  permanent_physical, permanent_logical, Slots, has_slot, assign_slot, SlotSettings, is_name, typed,
  is_slot_name, topology,
}
use area.Slots.Replication.{
  Asked, leader_filter, replica_filter, expected_active, plain_physical, slot_of_member,
  streaming_members, slot_members, add_members, add_retained, get_members_slots,
  get_permanent_slots, merge_options, merge_physical, merge_logical, merge_value,
  merge_permanent_slots, get_replication_slots,
}

has_slot-assign_slot :
    (slots : Slots) (name : Text) (slot : Slot) (k : Text)
    → has_slot (assign_slot slots name slot) k ≡ (eq_text k name || has_slot slots k)
unfolding has_slot assign_slot
has_slot-assign_slot [] name slot k = refl
has_slot-assign_slot (s ∷ slots) name slot k = elim (Bool-cases (eq_text name s.0)) [
  | inl e ↦ rw (e, eq_of_eq_text name s.0 e) (ground arith)
  | inr e ↦ rw (e, has_slot-assign_slot slots name slot k) (ground arith)
]

pub assign_slot-has :
    (slots : Slots) (name : Text) (slot : Slot) (k : Text)
    → has_slot slots k ≡ true
    → has_slot (assign_slot slots name slot) k ≡ true
assign_slot-has slots name slot k h = rw (has_slot-assign_slot slots name slot k) (ground arith)

pub assign_slot-new :
    (slots : Slots) (name : Text) (slot : Slot) → has_slot (assign_slot slots name slot) name ≡ true
assign_slot-new slots name slot =
    rw (has_slot-assign_slot slots name slot name, eq_text_refl name) refl

Mem-keep :
    (p : Member → Bool) (m : Member) (ms : List Member)
    → Memᴰ m ms
    → p m ≡ true
    → Memᴰ m (keep p ms)
Mem-keep p m [] k h = elim k [ ]
Mem-keep p m (n ∷ ms) (Memᴰ.head e) h = rw (subst (λ n. p n ≡ true) e h) (Memᴰ.head e)
Mem-keep p m (n ∷ ms) (Memᴰ.tail k) h = elim (Bool-cases (p n)) [
  | inl e ↦ rw e (Memᴰ.tail (Mem-keep p m ms k h))
  | inr e ↦ rw e (Mem-keep p m ms k h)
]

pub pick-has :
    (b : Bool) (s t : Slots) (k : Text)
    → has_slot s k ≡ true
    → has_slot t k ≡ true
    → has_slot (if b then s else t) k ≡ true
pick-has true s t k p q = p
pick-has false s t k p q = q

choose-has :
    (b : Bool) (s t : Slots × List Text) (k : Text)
    → has_slot s.0 k ≡ true
    → has_slot t.0 k ≡ true
    → has_slot (let merged : Slots × List Text = if b then s else t in merged.0) k ≡ true
choose-has true s t k p q = p
choose-has false s t k p q = q

module _ {Version : Type 0} (g : SlotSettings) (c : Cluster Version) where
  add_members-has :
      (old : Bool) (a : Asked) (ms : List Member) (slots : Slots) (k : Text)
      → has_slot slots k ≡ true
      → has_slot (add_members g c old a slots ms) k ≡ true
  unfolding add_members
  add_members-has old a [] slots k h = h
  add_members-has old a (m ∷ ms) slots k h =
      let name = slot_name_from_member_name m.name in
      let slot = slot_of_member g c old a m in
      add_members-has old a ms (assign_slot slots name slot) k (assign_slot-has slots name slot k h)

  add_members-new :
      (old : Bool) (a : Asked) (ms : List Member) (slots : Slots) (m : Member)
      → Memᴰ m ms
      → has_slot (add_members g c old a slots ms) (slot_name_from_member_name m.name) ≡ true
  unfolding add_members
  add_members-new old a [] slots m h = elim h [ ]
  add_members-new old a (n ∷ ms) slots m (Memᴰ.head e) =
      let name = slot_name_from_member_name n.name in
      let slot = slot_of_member g c old a n in
      let named : slot_name_from_member_name m.name ≡ name =
        ap (λ (x : Member). slot_name_from_member_name x.name) e in
      add_members-has old a ms (assign_slot slots name slot) (slot_name_from_member_name m.name)
        (ap (has_slot (assign_slot slots name slot)) named ∙ assign_slot-new slots name slot)
  add_members-new old a (n ∷ ms) slots m (Memᴰ.tail k) =
      add_members-new old a ms
        (assign_slot slots (slot_name_from_member_name n.name) (slot_of_member g c old a n)) m k

  pub add_retained-has :
      (a : Asked) (retain_slots : List Text) (members slots : Slots) (k : Text)
      → has_slot slots k ≡ true
      → has_slot (add_retained g c a members slots retain_slots) k ≡ true
  unfolding add_retained
  add_retained-has a [] members slots k h = h
  add_retained-has a (slot ∷ rest) members slots k h =
      pick-has
        (not (nofailover a.tags)
          && not (has_slot members slot)
          && not (eq_text slot (slot_name_from_member_name a.name)))
        (add_retained g c a members (assign_slot slots slot retained) rest)
        (add_retained g c a members slots rest) k
        (add_retained-has a rest members (assign_slot slots slot retained) k
          (assign_slot-has slots slot retained k h))
        (add_retained-has a rest members slots k h)

  merge_physical-has :
      (a : Asked) (name : Text) (o : Options) (slots : Slots) (k : Text)
      → has_slot slots k ≡ true
      → has_slot (merge_physical g c a name o slots) k ≡ true
  unfolding merge_physical
  merge_physical-has a name o slots k h =
      let slot =
        permanent_physical o (not (is_set (topology c.members name none)) && leads a.role) in
      pick-has (not (has_slot slots name) && not (eq_text name (slot_name_from_member_name a.name)))
        (assign_slot slots name slot) slots k (assign_slot-has slots name slot k h) h

  merge_logical-has :
      (name : Text) (o : Options) (slots : Slots) (k : Text)
      → has_slot slots k ≡ true
      → has_slot (merge_logical g c name o slots) k ≡ true
  unfolding merge_logical
  merge_logical-has name o slots k h =
      pick-has (has_slot slots name) slots (assign_slot slots name (permanent_logical o)) k h
        (assign_slot-has slots name (permanent_logical o) k h)

  merge_options-has :
      (a : Asked) (name : Text) (o : Options) (merged : Slots × List Text) (k : Text)
      → has_slot merged.0 k ≡ true
      → has_slot (merge_options g c a name o merged).0 k ≡ true
  unfolding merge_options
  merge_options-has a name o (slots, disabled) k h =
      ground (arith, merge_physical-has a name o slots k, merge_logical-has name o slots k)

  merge_value-has :
      (a : Asked) (name : Text) (v : PermanentValue) (merged : Slots × List Text) (k : Text)
      → has_slot merged.0 k ≡ true
      → has_slot (merge_value g c a name v merged).0 k ≡ true
  unfolding merge_value
  merge_value-has a name bad merged k h = h
  merge_value-has a name blank merged k h = merge_options-has a name plain_physical merged k h
  merge_value-has a name (options o) merged k h = merge_options-has a name (typed o) merged k h

  pub merge_permanent_slots-has :
      (a : Asked) (ps : PermanentSlots) (merged : Slots × List Text) (k : Text)
      → has_slot merged.0 k ≡ true
      → has_slot (merge_permanent_slots g c a ps merged).0 k ≡ true
  unfolding merge_permanent_slots
  merge_permanent_slots-has a [] merged k h = h
  merge_permanent_slots-has a (s ∷ ps) merged k h =
      let next = if is_slot_name s.0 then merge_value g c a s.0 s.1 merged else merged in
      merge_permanent_slots-has a ps next k (
        choose-has (is_slot_name s.0) (merge_value g c a s.0 s.1 merged) merged k
          (merge_value-has a s.0 s.1 merged k h) h)

  -- A node from which a member streams: the one that its tag names, which does not take the member for
  -- the leader unless it leads itself, and else the one that leads.
  pub data StreamsFrom (a : Asked) (m : Member) : Type 0 where
    cascades :
        replicatefrom m.tags ≡ some a.name
        → (leads a.role ≡ true) ⊎ (is_name m.name (leader_name c) ≡ false)
        → StreamsFrom a m
    follows : leads a.role ≡ true → replicatefrom m.tags ≡ none → StreamsFrom a m
    follows_unknown :
        (from : Text)
        → leads a.role ≡ true
        → replicatefrom m.tags ≡ some from
        → has_member from c ≡ false
        → StreamsFrom a m

  StreamsFrom-expected_active :
      (a : Asked) (m : Member) → StreamsFrom a m → expected_active g c a.role a.name m ≡ true
  unfolding expected_active leader_filter replica_filter
  StreamsFrom-expected_active a m (cascades e (inl l)) = rw (l, e, eq_text_refl a.name) refl
  StreamsFrom-expected_active a m (cascades e (inr n)) = elim (Bool-cases (leads a.role)) [
    | inl l ↦ rw (l, e, eq_text_refl a.name) refl
    | inr l ↦ rw (l, e, eq_text_refl a.name, n) refl
  ]
  StreamsFrom-expected_active a m (follows l e) = rw (l, e) refl
  StreamsFrom-expected_active a m (follows_unknown from l e h) = rw (l, e, h) (ground arith)

  slot_members-Mem :
      (a : Asked) (m : Member)
      → Memᴰ m c.members
      → eq_text m.name a.name ≡ false
      → nostream m.tags ≡ false
      → StreamsFrom a m
      → (nofailover a.tags ≡ false) ⊎ (replicatefrom m.tags ≡ some a.name)
      → Memᴰ m (slot_members g c a)
  unfolding slot_members streaming_members
  slot_members-Mem a m k n s f w =
      elim (Bool-cases (a.can_advance_slots && ltb_ℤ (pos 0) g.member_slots_ttl)) [
        | inl e ↦ rw e (Mem-keep _ m _ streams (wanted w))
        | inr e ↦ rw e (Mem-keep _ m _ streams (StreamsFrom-expected_active a m f))
      ]
    where
      streams : Memᴰ m (streaming_members g c a.name)
      streams = Mem-keep _ m c.members k (rw (n, s) refl)

      wanted :
          (nofailover a.tags ≡ false) ⊎ (replicatefrom m.tags ≡ some a.name)
          → (not (nofailover a.tags) || is_name a.name (replicatefrom m.tags)) ≡ true
      wanted (inl e) = rw e refl
      wanted (inr e) = rw (e, eq_text_refl a.name) (ground arith)

  -- If slots are used, a member that streams WAL finds its slot on each other node that it streams
  -- from, whatever slots are retained or permanent; the node is no such that its tags exclude it from
  -- failover, or the member's tag names it.
  pub get_replication_slots-has :
      (leader_is_old : Bool) (a : Asked) (m : Member)
      → g.use_slots ≡ true
      → Memᴰ m c.members
      → eq_text m.name a.name ≡ false
      → nostream m.tags ≡ false
      → StreamsFrom a m
      → (nofailover a.tags ≡ false) ⊎ (replicatefrom m.tags ≡ some a.name)
      → has_slot (get_replication_slots g c leader_is_old a) (slot_name_from_member_name m.name)
        ≡ true
  unfolding get_replication_slots get_members_slots
  get_replication_slots-has old a m u k n s f w =
      let name = slot_name_from_member_name m.name in
      let members = add_members g c old a [] (slot_members g c a) in
      merge_permanent_slots-has a (get_permanent_slots g c a) (get_members_slots g c old a, []) name
        (rw u (
          add_retained-has a c.status.retain_slots members members name
            (add_members-new old a (slot_members g c a) [] m (slot_members-Mem a m k n s f w))))
