-- ===== src/Slots/Wanted.antt =====
-- `Cluster.get_replication_slots`: the slots that a node has to have. Of a permanent slot's dictionary
-- the entries are kept that this code reads.
use area.Common.{
  ℤ, pos, leb, ◌==◌, Bool, true, false, not, ◌&&◌, ◌||◌, Option, none, some, List, [], ◌∷◌, every,
  some_of, is_empty, length, Text, codes, eq_text, if◌then◌else◌,
}
use area.Sync.State.{is_set}
use area.Tags.{replicatefrom}
use area.Cluster.Member.{Member}
use area.Slots.Name.{is_slot_char, slot_name_from_member_name}

pub data PostgresqlRole : Type 0 where
  primary master standby_leader replica demoted uninitialized promoted : PostgresqlRole

-- `role in (PostgresqlRole.PRIMARY, PostgresqlRole.STANDBY_LEADER)`
abbrev pub leads : PostgresqlRole → Bool
leads primary = true
leads standby_leader = true
leads _ = false

abbrev pub is_primary : PostgresqlRole → Bool
is_primary primary = true
is_primary _ = false

abbrev pub is_standby_leader : PostgresqlRole → Bool
is_standby_leader standby_leader = true
is_standby_leader _ = false

pub record Options : Type 0 where
  pub slot_type : Option Text
  -- The truth values of these entries.
  pub database : Bool
  pub plugin : Bool
  pub cluster_type : Option Text
  pub lsn : Option ℤ

-- `blank` counts as false; `bad` is no dictionary, and counts as true.
pub data PermanentValue : Type 0 where
  blank bad : PermanentValue
  options : Options → PermanentValue

abbrev pub PermanentSlots : Type 0
PermanentSlots = List (Text × PermanentValue)

pub data Slot : Type 0 where
  member_slot : ℤ → Bool → Slot
  retained : Slot
  permanent_physical : Options → Bool → Slot
  permanent_logical : Options → Slot

-- The dictionary of slots, by name.
abbrev pub Slots : Type 0
Slots = List (Text × Slot)

unfoldable pub has_slot : Slots → Text → Bool
has_slot slots name = some_of (λ s. eq_text name s.0) slots

-- `slots[name] = slot`
unfoldable pub assign_slot : Slots → Text → Slot → Slots
assign_slot [] name slot = (name, slot) ∷ []
assign_slot (s ∷ slots) name slot =
    let later = assign_slot slots name slot in
    if eq_text name s.0 then (name, slot) ∷ slots else s ∷ later

-- What the global configuration and the node give.
pub record SlotSettings : Type 0 where
  pub use_slots : Bool
  pub is_standby_cluster : Bool
  pub member_slots_ttl : ℤ
  pub permanent_slots : PermanentSlots

abbrev pub or_zero : Option ℤ → ℤ
or_zero none = pos 0
or_zero (some n) = n

-- `slots.get(name, 0)`
unfoldable pub lsn_of_slot : Option (List (Text × ℤ)) → Text → ℤ
lsn_of_slot none name = pos 0
lsn_of_slot (some []) name = pos 0
lsn_of_slot (some (s ∷ slots)) name =
    let later = lsn_of_slot (some slots) name in if eq_text name s.0 then s.1 else later

abbrev pub is_name : Text → Option Text → Bool
is_name name none = false
is_name name (some n) = eq_text n name

-- The last member of those that replicate from another whose slot has the name.
unfoldable pub cascading_lsn : List Member → Text → ℤ → ℤ
cascading_lsn [] name lsn = lsn
cascading_lsn (m ∷ ms) name lsn = cascading_lsn ms name (
    if is_set (replicatefrom m.tags) && eq_text (slot_name_from_member_name m.name) name
    then or_zero m.lsn
    else lsn)

-- `topology.get(slot_name)`, where a later member with the same slot name counts.
unfoldable pub topology : List Member → Text → Option Text → Option Text
topology [] slot_name from = from
topology (m ∷ ms) slot_name from = topology ms slot_name (
    if eq_text (slot_name_from_member_name m.name) slot_name
    then slot_of (replicatefrom m.tags)
    else from)
  where
    slot_of : Option Text → Option Text
    slot_of none = none
    slot_of (some r) = if is_empty r then some [] else some (slot_name_from_member_name r)

unfoldable pub is_logical_slot : PermanentValue → Bool
is_logical_slot blank = false
is_logical_slot bad = false
is_logical_slot (options o) =
    (is_none o.slot_type || is_name (codes "logical") o.slot_type) && o.database && o.plugin
  where
    is_none : Option Text → Bool
    is_none none = true
    is_none (some t) = false

unfoldable pub is_physical_slot : PermanentValue → Bool
unfolding is_logical_slot
is_physical_slot blank = true
is_physical_slot bad = false
is_physical_slot (options o) =
    not (is_logical_slot (options o))
    && (is_none o.slot_type || is_name (codes "physical") o.slot_type)
  where
    is_none : Option Text → Bool
    is_none none = true
    is_none (some t) = false

abbrev pub no_options : Options
no_options = record {
  slot_type = none;
  database = false;
  plugin = false;
  cluster_type = none;
  lsn = none;
}

-- `$` stands at the end, and before a line feed that ends the text.
unfoldable pub before_end : Text → Text
before_end [] = []
before_end (c ∷ []) = if c == 10 then [] else c ∷ []
before_end (c ∷ d ∷ s) = c ∷ before_end (d ∷ s)

-- `slot_name_re.match(name)`
unfoldable pub is_slot_name : Text → Bool
unfolding before_end is_slot_char
is_slot_name name =
    let s = before_end name in not (is_empty s) && leb (length s) 63 && every is_slot_char s

-- The type that an entry without one has.
unfoldable pub typed : Options → Options
typed o = record o { slot_type = some (type_of o.slot_type) }
  where
    type_of : Option Text → Text
    type_of (some t) = t
    type_of none = if o.database && o.plugin then codes "logical" else codes "physical"
