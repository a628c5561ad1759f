-- ===== src/Slots/Cascade.antt =====
-- `Cluster.get_slot_name_on_primary`: up the chain of cascading replication.
use area.Common.{
  ℕ, zero, suc, not, ◌&&◌, Option, none, some, List, [], ◌∷◌, some_of, is_empty, length, Text,
  eq_text, if◌then◌else◌,
}
use area.Tags.{Tags, nostream, replicatefrom}
use area.Cluster.Member.{Member}
use area.Cluster.View.{get_member}
use area.Slots.Name.{slot_name_from_member_name}

-- The member that a node replicates from, if it is known.
unfoldable pub upstream : List Member → Text → Tags → Option Member
upstream members name tags = elim (replicatefrom tags) [
  | none ↦ none
  | some from ↦
      if not (is_empty from) && not (eq_text from name) then get_member from members else none
]

-- The loop, on fuel; none where it runs out.
unfoldable pub follow : ℕ → List Member → List Text → Text → Tags → Option (Option Text)
follow zero members seen_nodes name tags = none
follow (suc fuel) members seen_nodes name tags =
    if nostream tags then some none else elim (upstream members name tags) [
      | none ↦ some (some (slot_name_from_member_name name))
      | some m ↦
          let rest = follow fuel members (name ∷ seen_nodes) m.name m.tags in
          if some_of (eq_text m.name) (name ∷ seen_nodes) then some none else rest
    ]

-- A round for the node and one for each member is enough.
unfoldable pub get_slot_name_on_primary : List Member → Text → Tags → Option (Option Text)
get_slot_name_on_primary members name tags = follow (suc (length members)) members [] name tags
