-- ===== src/Slots/Tests.antt =====
-- A chain of three nodes, and slot names.
use Prim.Native.String.{String}
use area.Common.{◌≡◌, ◌≤◌, true, Option, none, some, List, [], ◌∷◌, every, length, Text, codes}
use area.Slots.Name.{is_slot_char, slot_name_from_member_name}
use area.Tags.{Tags}
use area.Cluster.Member.{Member}
use area.Slots.Cascade.{get_slot_name_on_primary}
use area.Slots.Valid.{slot_name-valid}
use area.Slots.Walk.{Answer, get_slot_name_on_primary-Answer}

abbrev from : String → Tags
from name =
    record {
      name = codes "replicatefrom";
      value = some (record { truth = true; number = none; flag = none; text = codes name });
    }
    ∷ []

abbrev node : String → Tags → Member
node name tags = record {
  name = codes name;
  tags = tags;
  api_url = none;
  conn_url = none;
  member_state = none;
  lsn = none;
}

abbrev chain : List Member
chain = node "p" [] ∷ node "i" (from "x") ∷ node "l" (from "i") ∷ []

slot_name-valid_example :
    (let slot = slot_name_from_member_name (codes "Node-1.é") in
      (length slot ≤ 63)
      × (every is_slot_char slot ≡ true)
      × (slot_name_from_member_name slot ≡ slot))
slot_name-valid_example = slot_name-valid (codes "Node-1.é")

get_slot_name_on_primary-Answer_example :
    (r : Option Text) × (get_slot_name_on_primary chain (codes "l") (from "i") ≡ some r)
    × Answer chain (codes "l") (from "i") r
get_slot_name_on_primary-Answer_example =
    get_slot_name_on_primary-Answer chain (codes "l") (from "i")
