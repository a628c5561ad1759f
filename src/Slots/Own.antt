-- ===== src/Slots/Own.antt =====
-- A node has no physical slot for itself.
use area.Common.{
  ◌≡◌, refl, inl, inr, arith, Bool-cases, and-eq-true, Bool, true, false, not, ◌&&◌, ◌||◌, pos,
  ltb_ℤ, none, List, [], ◌∷◌, keep, every, Text, codes, eq_text, if◌then◌else◌,
}
use area.Sync.State.{is_set}
use area.Tags.{nostream, nofailover}
use area.Cluster.Member.{Member}
use area.Cluster.View.{Cluster}
use area.Slots.Name.{slot_name_from_member_name}
use area.Slots.Wanted.{
  leads, Options, PermanentValue, blank, bad, options, PermanentSlots, Slot, retained,
  permanent_physical, permanent_logical, Slots, has_slot, assign_slot, SlotSettings, is_name,
  is_logical_slot, typed, is_slot_name, topology,
}
use area.Slots.Replication.{
  Asked, plain_physical, slot_of_member, streaming_members, slot_members, add_members, add_retained,
  get_members_slots, get_permanent_slots, merge_physical, merge_logical, merge_options, merge_value,
  merge_permanent_slots, get_replication_slots,
}

abbrev pub is_logical : Slot → Bool
is_logical (permanent_logical o) = true
is_logical _ = false

-- An entry of another name, or a logical slot.
abbrev pub is_foreign : Text → Text × Slot → Bool
is_foreign own (name, slot) = not (eq_text name own) || is_logical slot

-- No other member's name becomes the same slot name.
abbrev pub is_distinct : Text → Member → Bool
is_distinct name m =
    eq_text m.name name
    || not (eq_text (slot_name_from_member_name m.name) (slot_name_from_member_name name))

every-assign_slot :
    (own : Text) (slots : Slots) (name : Text) (slot : Slot)
    → every (is_foreign own) slots ≡ true
    → is_foreign own (name, slot) ≡ true
    → every (is_foreign own) (assign_slot slots name slot) ≡ true
unfolding assign_slot
every-assign_slot own [] name slot h k = rw k refl
every-assign_slot own (s ∷ slots) name slot h k =
    let (a, b) = and-eq-true (is_foreign own s) (every (is_foreign own) slots) h in
    elim (Bool-cases (eq_text name s.0)) [
      | inl e ↦ rw (e, k) b
      | inr e ↦ rw (e, a) (every-assign_slot own slots name slot b k)
    ]

pick :
    (own : Text) (b : Bool) (s t : Slots)
    → (b ≡ true → every (is_foreign own) s ≡ true)
    → every (is_foreign own) t ≡ true
    → every (is_foreign own) (if b then s else t) ≡ true
pick own true s t p q = p refl
pick own false s t p q = q

choose :
    (own : Text) (b : Bool) (s t : Slots × List Text)
    → every (is_foreign own) s.0 ≡ true
    → every (is_foreign own) t.0 ≡ true
    → every (is_foreign own) (let merged : Slots × List Text = if b then s else t in merged.0)
      ≡ true
choose own true s t p q = p
choose own false s t p q = q

every-keep :
    (p q r : Member → Bool) (ms : List Member)
    → ((m : Member) → p m ≡ true → q m ≡ true → r m ≡ true)
    → every q ms ≡ true
    → every r (keep p ms) ≡ true
every-keep p q r [] f h = refl
every-keep p q r (m ∷ ms) f h =
    let (a, b) = and-eq-true (q m) (every q ms) h in
    elim (Bool-cases (p m)) [
      | inl e ↦ rw (e, f m e a) (every-keep p q r ms f b)
      | inr e ↦ rw e (every-keep p q r ms f b)
    ]

module _ {Version : Type 0} (g : SlotSettings) (c : Cluster Version) where
  abbrev own_of : Asked → Text
  own_of a = slot_name_from_member_name a.name

  abbrev is_other : Asked → Member → Bool
  is_other a m = not (eq_text (slot_name_from_member_name m.name) (own_of a))

  slot_members-other :
      (a : Asked)
      → every (is_distinct a.name) c.members ≡ true
      → every (is_other a) (slot_members g c a) ≡ true
  unfolding slot_members streaming_members
  slot_members-other a h =
      let streams =
        every-keep _ (is_distinct a.name) (is_other a) c.members (λ m p q. other m p q) h in
      elim (Bool-cases (a.can_advance_slots && ltb_ℤ (pos 0) g.member_slots_ttl)) [
        | inl e ↦ rw e (every-keep _ (is_other a) (is_other a) _ (λ m p q. q) streams)
        | inr e ↦ rw e (every-keep _ (is_other a) (is_other a) _ (λ m p q. q) streams)
      ]
    where
      other :
          (m : Member)
          → (not (eq_text m.name a.name) && not (nostream m.tags)) ≡ true
          → is_distinct a.name m ≡ true
          → is_other a m ≡ true
      other m p q = ground arith

  add_members-foreign :
      (old : Bool) (a : Asked) (ms : List Member) (slots : Slots)
      → every (is_other a) ms ≡ true
      → every (is_foreign (own_of a)) slots ≡ true
      → every (is_foreign (own_of a)) (add_members g c old a slots ms) ≡ true
  unfolding add_members slot_of_member
  add_members-foreign old a [] slots h k = k
  add_members-foreign old a (m ∷ ms) slots h k =
      let (p, q) = and-eq-true (is_other a m) (every (is_other a) ms) h in
      let slot = slot_of_member g c old a m in
      add_members-foreign old a ms (assign_slot slots (slot_name_from_member_name m.name) slot) q
        (every-assign_slot (own_of a) slots (slot_name_from_member_name m.name) slot k (rw p refl))

  add_retained-foreign :
      (a : Asked) (retain_slots : List Text) (members slots : Slots)
      → every (is_foreign (own_of a)) slots ≡ true
      → every (is_foreign (own_of a)) (add_retained g c a members slots retain_slots) ≡ true
  unfolding add_retained
  add_retained-foreign a [] members slots k = k
  add_retained-foreign a (slot ∷ rest) members slots k =
      pick (own_of a)
        (not (nofailover a.tags) && not (has_slot members slot) && not (eq_text slot (own_of a)))
        (add_retained g c a members (assign_slot slots slot retained) rest)
        (add_retained g c a members slots rest)
        (λ b.
          add_retained-foreign a rest members (assign_slot slots slot retained)
            (every-assign_slot (own_of a) slots slot retained k (differs b)))
        (add_retained-foreign a rest members slots k)
    where
      differs :
          (not (nofailover a.tags) && not (has_slot members slot) && not (eq_text slot (own_of a)))
            ≡ true
          → is_foreign (own_of a) (slot, retained) ≡ true
      differs b = ground arith

  merge_physical-foreign :
      (a : Asked) (name : Text) (o : Options) (slots : Slots)
      → every (is_foreign (own_of a)) slots ≡ true
      → every (is_foreign (own_of a)) (merge_physical g c a name o slots) ≡ true
  unfolding merge_physical
  merge_physical-foreign a name o slots k =
      let slot =
        permanent_physical o (not (is_set (topology c.members name none)) && leads a.role) in
      pick (own_of a) (not (has_slot slots name) && not (eq_text name (own_of a)))
        (assign_slot slots name slot) slots
        (λ b. every-assign_slot (own_of a) slots name slot k (differs slot b)) k
    where
      differs :
          (slot : Slot)
          → (not (has_slot slots name) && not (eq_text name (own_of a))) ≡ true
          → is_foreign (own_of a) (name, slot) ≡ true
      differs slot b = ground arith

  merge_logical-foreign :
      (own name : Text) (o : Options) (slots : Slots)
      → every (is_foreign own) slots ≡ true
      → every (is_foreign own) (merge_logical g c name o slots) ≡ true
  unfolding merge_logical
  merge_logical-foreign own name o slots k =
      pick own (has_slot slots name) slots (assign_slot slots name (permanent_logical o)) (λ b. k)
        (every-assign_slot own slots name (permanent_logical o) k (ground arith))

  merge_options-foreign :
      (a : Asked) (name : Text) (o : Options) (merged : Slots × List Text)
      → every (is_foreign (own_of a)) merged.0 ≡ true
      → every (is_foreign (own_of a)) (merge_options g c a name o merged).0 ≡ true
  unfolding merge_options
  merge_options-foreign a name o (slots, disabled) k =
      let p = merge_physical-foreign a name o slots k in
      let q = merge_logical-foreign (own_of a) name o slots k in
      elim (Bool-cases (is_name (codes "physical") o.slot_type)) [
        | inl e ↦ rw e p
        | inr e ↦ elim (Bool-cases (is_logical_slot (options o))) [
          | inl f ↦ elim (Bool-cases a.can_advance_slots) [
            | inl d ↦ rw (e, f, d) q
            | inr d ↦ rw (e, f, d) k
          ]
          | inr f ↦ rw (e, f) k
        ]
      ]

  merge_value-foreign :
      (a : Asked) (name : Text) (v : PermanentValue) (merged : Slots × List Text)
      → every (is_foreign (own_of a)) merged.0 ≡ true
      → every (is_foreign (own_of a)) (merge_value g c a name v merged).0 ≡ true
  unfolding merge_value
  merge_value-foreign a name bad merged k = k
  merge_value-foreign a name blank merged k = merge_options-foreign a name plain_physical merged k
  merge_value-foreign a name (options o) merged k = merge_options-foreign a name (typed o) merged k

  merge_permanent_slots-foreign :
      (a : Asked) (ps : PermanentSlots) (merged : Slots × List Text)
      → every (is_foreign (own_of a)) merged.0 ≡ true
      → every (is_foreign (own_of a)) (merge_permanent_slots g c a ps merged).0 ≡ true
  unfolding merge_permanent_slots
  merge_permanent_slots-foreign a [] merged k = k
  merge_permanent_slots-foreign a (s ∷ ps) merged k =
      let next = if is_slot_name s.0 then merge_value g c a s.0 s.1 merged else merged in
      merge_permanent_slots-foreign a ps next (
        choose (own_of a) (is_slot_name s.0) (merge_value g c a s.0 s.1 merged) merged
          (merge_value-foreign a s.0 s.1 merged k) k)

  -- A node never has a slot with its own slot name, a permanent logical slot excepted, where no other
  -- member's name becomes the same slot name; this holds for retained and permanent slots too.
  pub get_replication_slots-foreign :
      (leader_is_old : Bool) (a : Asked)
      → every (is_distinct a.name) c.members ≡ true
      → every
          (is_foreign (slot_name_from_member_name a.name))
          (get_replication_slots g c leader_is_old a)
        ≡ true
  unfolding get_replication_slots get_members_slots
  get_replication_slots-foreign old a h =
      let members = add_members g c old a [] (slot_members g c a) in
      merge_permanent_slots-foreign a (get_permanent_slots g c a) (get_members_slots g c old a, [])
        (pick (own_of a) (not g.use_slots) []
          (add_retained g c a members members c.status.retain_slots) (λ b. refl)
          (add_retained-foreign a c.status.retain_slots members members
            (add_members-foreign old a (slot_members g c a) [] (slot_members-other a h) refl)))
