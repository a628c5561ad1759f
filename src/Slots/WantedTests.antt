-- ===== src/Slots/WantedTests.antt =====
-- The slots of a primary and of a standby in a chain p <- i <- l, with permanent slots.
use Prim.Native.String.{String}
use mathlib.Core.List.{Memᴰ}
use area.Common.{
  pos, ◌≡◌, refl, inl, inr, true, false, none, some, List, [], ◌∷◌, map, every, Text, codes, lower,
  eq_text,
}
use area.Tags.{Tags, nostream, nofailover, replicatefrom, get_tag, bool_tag}
use area.Sync.State.{empty}
use area.Cluster.Member.{Member}
use area.Cluster.View.{Cluster, leader_name, has_member}
use area.Slots.Name.{is_slot_char, replace_chars, slot_name_from_member_name}
use area.Slots.Cascade.{upstream, follow, get_slot_name_on_primary}
use area.Slots.Wanted.{
  PostgresqlRole, primary, replica, no_options, Slot, blank, bad, options, has_slot, assign_slot,
  is_logical_slot, SlotSettings,
}
use area.Slots.Replication.{Asked, get_replication_slots}
use area.Slots.Kept.{cascades, get_replication_slots-has}
use area.Slots.Own.{is_foreign, get_replication_slots-foreign}

abbrev from : String → Tags
from name =
    record {
      name = codes "replicatefrom";
      value = some (record { truth = true; number = none; flag = none; text = codes name });
    }
    ∷ []

abbrev node : String → Tags → Member
node name tags = record {
  name = codes name;
  tags = tags;
  api_url = none;
  conn_url = none;
  member_state = none;
  lsn = some (pos 7);
}

abbrev view : Cluster Text
view = record {
  initialize = none;
  leader = some (record { version = []; session = []; member = node "p" []; timeline = none });
  status = record {
    last_lsn = pos 9;
    slots = some ((codes "i", pos 5) ∷ []);
    retain_slots = codes "gone" ∷ codes "p" ∷ [];
  };
  members = node "p" [] ∷ node "i" [] ∷ node "l" (from "i") ∷ [];
  failover = none;
  sync = empty none;
  history = none;
  failsafe = none;
}

abbrev settings : SlotSettings
settings = record {
  use_slots = true;
  is_standby_cluster = false;
  member_slots_ttl = pos 0;
  permanent_slots =
      (codes "p", blank)
      ∷ (codes "BAD", blank)
      ∷ (codes "logs", options (record no_options { database = true; plugin = true }))
      ∷ (codes "odd", bad)
      ∷ (codes "backup", blank)
      ∷ [];
}

abbrev asked : String → PostgresqlRole → Asked
asked name role = record {
  name = codes name;
  postgresql_name = codes name;
  tags = [];
  role = role;
  can_advance_slots = true;
}

get_replication_slots-has_example :
    has_slot
      (get_replication_slots settings view false (asked "i" replica))
      (slot_name_from_member_name (codes "l"))
    ≡ true
unfolding nostream nofailover bool_tag replicatefrom get_tag eq_text leader_name
get_replication_slots-has_example =
    get_replication_slots-has settings view false (asked "i" replica) (node "l" (from "i")) refl
      (Memᴰ.tail (Memᴰ.tail (Memᴰ.head refl))) refl refl (cascades refl (inr refl)) (inl refl)

get_replication_slots-foreign_example :
    every
      (is_foreign (slot_name_from_member_name (codes "p")))
      (get_replication_slots settings view false (asked "p" primary))
    ≡ true
unfolding slot_name_from_member_name replace_chars lower is_slot_char eq_text
get_replication_slots-foreign_example =
    get_replication_slots-foreign settings view false (asked "p" primary) refl

abbrev names : List (Text × Slot) → List Text
names slots = map (λ s. s.0) slots

-- The standby l streams from i, so the primary has no slot for it.
on_primary :
    names (get_replication_slots settings view false (asked "p" primary))
    ≡ codes "i" ∷ codes "gone" ∷ codes "logs" ∷ codes "backup" ∷ []
unfolding get_replication_slots get_slot_name_on_primary follow upstream nofailover bool_tag get_tag
    nostream replicatefrom eq_text has_slot assign_slot is_logical_slot has_member
    slot_name_from_member_name replace_chars lower is_slot_char
on_primary = refl
