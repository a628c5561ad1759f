-- ===== src/Slots/Replication.antt =====
-- `get_replication_slots` and its parts: the slots for members, the permanent slots and their union.
use area.Common.{
  ℤ, pos, ltb_ℤ, max_ℤ, nonzero, Bool, true, false, not, ◌&&◌, ◌||◌, Option, none, some, List, [],
  ◌∷◌, ◌++◌, map, keep, Text, codes, eq_text, if◌then◌else◌,
}
use area.Sync.State.{is_set}
use area.Tags.{Tags, nostream, nofailover, replicatefrom}
use area.Cluster.Member.{Member}
use area.Cluster.View.{Cluster, leader_name, has_member}
use area.Slots.Name.{slot_name_from_member_name}
use area.Slots.Cascade.{get_slot_name_on_primary}
use area.Slots.Wanted.{
  PostgresqlRole, leads, is_primary, is_standby_leader, Options, PermanentValue, blank, bad,
  options, PermanentSlots, Slot, member_slot, retained, permanent_physical, permanent_logical,
  Slots, has_slot, assign_slot, SlotSettings, or_zero, lsn_of_slot, is_name, cascading_lsn,
  topology, is_logical_slot, is_physical_slot, no_options, is_slot_name, typed,
}

-- The node: its name, its role, and whether its PostgreSQL can advance slots. The tags are those of
-- the member that is asked for, which may be another one.
pub record Asked : Type 0 where
  pub name : Text
  pub postgresql_name : Text
  pub tags : Tags
  pub role : PostgresqlRole
  pub can_advance_slots : Bool

-- `{'type': 'physical'}`
abbrev pub plain_physical : Options
plain_physical = record no_options { slot_type = some (codes "physical") }

-- An LSN of zero is left out.
abbrev pub known : ℤ → Option ℤ
known lsn = if nonzero lsn then some lsn else none

-- No slot on the primary is what the node depends on; the walk's fuel is enough.
abbrev pub depends_on_no_slot : Option (Option Text) → Bool
depends_on_no_slot (some (some slot)) = false
depends_on_no_slot _ = true

module _ {Version : Type 0} (g : SlotSettings) (c : Cluster Version) where
  abbrev pub is_followed : Text → Option Text → Bool
  is_followed name none = true
  is_followed name (some from) = eq_text from name || not (has_member from c)

  unfoldable pub leader_filter : Text → Member → Bool
  leader_filter name m = is_followed name (replicatefrom m.tags)

  unfoldable pub replica_filter : Text → Member → Bool
  replica_filter name m =
      is_name name (replicatefrom m.tags) && not (is_name m.name (leader_name c))

  unfoldable pub expected_active : PostgresqlRole → Text → Member → Bool
  unfolding leader_filter replica_filter
  expected_active role name m = if leads role then leader_filter name m else replica_filter name m

  -- The members that the node may have a slot for.
  unfoldable pub streaming_members : Text → List Member
  streaming_members name = keep (λ m. not (eq_text m.name name) && not (nostream m.tags)) c.members

  unfoldable pub slot_members : Asked → List Member
  unfolding streaming_members expected_active
  slot_members a =
      if a.can_advance_slots && ltb_ℤ (pos 0) g.member_slots_ttl
      then keep (λ m. not (nofailover a.tags) || is_name a.name (replicatefrom m.tags))
          (streaming_members a.name)
      else keep (expected_active a.role a.name) (streaming_members a.name)

  -- `leader_is_old`: the leader's version of Patroni is known, and below 4.0.0.
  unfoldable pub lsn_of_member : Bool → Member → ℤ
  lsn_of_member leader_is_old m =
      let lsn = lsn_of_slot c.status.slots (slot_name_from_member_name m.name) in
      if is_set (replicatefrom m.tags) || leader_is_old then max_ℤ (or_zero m.lsn) lsn else lsn

  unfoldable pub slot_of_member : Bool → Asked → Member → Slot
  unfolding expected_active lsn_of_member
  slot_of_member leader_is_old a m =
      member_slot (lsn_of_member leader_is_old m) (expected_active a.role a.name m)

  unfoldable pub add_members : Bool → Asked → Slots → List Member → Slots
  unfolding slot_of_member
  add_members leader_is_old a slots [] = slots
  add_members leader_is_old a slots (m ∷ ms) =
      add_members leader_is_old a
        (assign_slot slots (slot_name_from_member_name m.name) (slot_of_member leader_is_old a m))
        ms

  -- `slots` has the slots of members, against which each retained slot is checked.
  unfoldable pub add_retained : Asked → Slots → Slots → List Text → Slots
  add_retained a members slots [] = slots
  add_retained a members slots (slot ∷ retain_slots) =
      let added = add_retained a members (assign_slot slots slot retained) retain_slots in
      let skipped = add_retained a members slots retain_slots in
      if not (nofailover a.tags)
        && not (has_slot members slot)
        && not (eq_text slot (slot_name_from_member_name a.name))
      then added
      else skipped

  -- `_get_members_slots`
  unfoldable pub get_members_slots : Bool → Asked → Slots
  unfolding add_members add_retained slot_members
  get_members_slots leader_is_old a =
      let members = add_members leader_is_old a [] (slot_members a) in
      let slots = add_retained a members members c.status.retain_slots in
      if not g.use_slots then [] else slots

  -- `__permanent_slots` of one entry: the LSN comes from the slots of the leader and, for a physical
  -- slot, from a member with that slot name that replicates from another.
  unfoldable pub with_lsn : Text → PermanentValue → PermanentValue
  with_lsn name bad = bad
  with_lsn name blank = options (record no_options {
    lsn = known (max_ℤ (cascading_lsn c.members name (pos 0)) (lsn_of_slot c.status.slots name));
  })
  with_lsn name (options o) =
      let member_lsn =
        if is_physical_slot (options o) then cascading_lsn c.members name (pos 0) else pos 0 in
      options (record o { lsn = known (max_ℤ member_lsn (lsn_of_slot c.status.slots name)) })

  unfoldable pub all_permanent_slots : PermanentSlots
  unfolding with_lsn
  all_permanent_slots = map (λ s. (s.0, with_lsn s.0 s.1)) g.permanent_slots

  unfoldable pub is_for_cluster : PermanentValue → Bool
  is_for_cluster (options o) =
      if g.is_standby_cluster
      then not (is_name (codes "primary") o.cluster_type)
      else not (is_name (codes "standby") o.cluster_type)
  is_for_cluster _ = true

  unfoldable pub permanent_physical_slots : PermanentSlots
  unfolding all_permanent_slots is_for_cluster
  permanent_physical_slots =
      keep (λ s. is_physical_slot s.1 && is_for_cluster s.1) all_permanent_slots

  -- `_get_permanent_slots`
  unfoldable pub get_permanent_slots : Asked → PermanentSlots
  unfolding all_permanent_slots permanent_physical_slots
  get_permanent_slots a =
      if not g.use_slots || nofailover a.tags
      then []
      else if g.is_standby_cluster
          || depends_on_no_slot (get_slot_name_on_primary c.members a.postgresql_name a.tags)
      then if a.can_advance_slots || is_standby_leader a.role then permanent_physical_slots else []
      else if a.can_advance_slots || is_primary a.role
      then all_permanent_slots
      else keep (λ s. is_logical_slot s.1) all_permanent_slots

  unfoldable pub merge_physical : Asked → Text → Options → Slots → Slots
  merge_physical a slot_name o slots =
      if not (has_slot slots slot_name)
        && not (eq_text slot_name (slot_name_from_member_name a.name))
      then assign_slot slots slot_name
          (permanent_physical o (not (is_set (topology c.members slot_name none)) && leads a.role))
      else slots

  unfoldable pub merge_logical : Text → Options → Slots → Slots
  merge_logical slot_name o slots =
      if has_slot slots slot_name then slots else assign_slot slots slot_name (permanent_logical o)

  -- One entry of the loop of `_merge_permanent_slots`; the names of logical slots that are disabled
  -- are kept apart.
  unfoldable pub merge_options : Asked → Text → Options → Slots × List Text → Slots × List Text
  unfolding merge_physical merge_logical
  merge_options a slot_name o (slots, disabled) =
      if is_name (codes "physical") o.slot_type
      then (merge_physical a slot_name o slots, disabled)
      else if is_logical_slot (options o)
      then if not a.can_advance_slots
        then (slots, disabled ++ slot_name ∷ [])
        else (merge_logical slot_name o slots, disabled)
      else (slots, disabled)

  unfoldable pub merge_value : Asked → Text → PermanentValue → Slots × List Text → Slots × List Text
  unfolding merge_options typed
  merge_value a slot_name bad merged = merged
  merge_value a slot_name blank merged = merge_options a slot_name plain_physical merged
  merge_value a slot_name (options o) merged = merge_options a slot_name (typed o) merged

  -- `_merge_permanent_slots`
  unfoldable pub merge_permanent_slots :
      Asked → PermanentSlots → Slots × List Text → Slots × List Text
  unfolding merge_value is_slot_name
  merge_permanent_slots a [] merged = merged
  merge_permanent_slots a (s ∷ permanent_slots) merged =
      merge_permanent_slots a permanent_slots
        (if is_slot_name s.0 then merge_value a s.0 s.1 merged else merged)

  unfoldable pub get_replication_slots : Bool → Asked → Slots
  unfolding get_members_slots get_permanent_slots merge_permanent_slots
  get_replication_slots leader_is_old a =
      (merge_permanent_slots a (get_permanent_slots a) (get_members_slots leader_is_old a, [])).0
