-- ===== src/Slots/Retain.antt =====
-- `AbstractDCS._build_retain_slots` and the part of `acquire_leader_lock` that sets its times back.
-- Times and the time to live are seconds.
use area.Common.{
  ℤ, ◌+ℤ◌, leb_ℤ, Bool, false, not, ◌&&◌, Option, none, some, List, [], ◌∷◌, map, keep, some_of,
  is_empty, Text, eq_text, if◌then◌else◌,
}
use area.Sync.Names.{sorted}
use area.Tags.{nostream}
use area.Cluster.Member.{Member}
use area.Cluster.View.{Cluster}
use area.Slots.Name.{slot_name_from_member_name}
use area.Slots.Wanted.{SlotSettings}
use area.Slots.Replication.{permanent_physical_slots}

-- `_last_retain_slots`: when each slot was last seen.
abbrev pub RetainSlots : Type 0
RetainSlots = List (Text × ℤ)

unfoldable pub stamp : RetainSlots → Text → ℤ → RetainSlots
stamp [] name timestamp = (name, timestamp) ∷ []
stamp (s ∷ last) name timestamp =
    let later = stamp last name timestamp in
    if eq_text name s.0 then (name, timestamp) ∷ last else s ∷ later

-- The variable `found_self` after the loop.
unfoldable pub found_self : Text → Bool → List Member → Bool
found_self own found [] = found
found_self own found (m ∷ ms) = found_self own (eq_text m.name own) ms

-- The set `members`.
unfoldable pub slots_of_members : Text → List Member → List Text
unfolding found_self
slots_of_members own ms =
    let names =
      map (λ m. slot_name_from_member_name m.name) (keep (λ m. not (nostream m.tags)) ms) in
    if found_self own false ms then names else slot_name_from_member_name own ∷ names

-- The slots of members among those that exist, and that are not permanent.
abbrev pub is_listed : Text → List Text → Bool
is_listed name names = some_of (eq_text name) names

unfoldable pub stamp_all : List Text → List Text → ℤ → RetainSlots → List Text → RetainSlots
stamp_all members permanent timestamp last [] = last
stamp_all members permanent timestamp last (name ∷ slots) =
    stamp_all members permanent timestamp
      (if is_listed name members && not (is_listed name permanent)
        then stamp last name timestamp
        else last)
      slots

unfoldable pub expire : ℤ → ℤ → RetainSlots → RetainSlots
expire ttl timestamp last = keep (λ s. not (leb_ℤ (s.1 +ℤ ttl) timestamp)) last

module _ {Version : Type 0} (g : SlotSettings) (own : Text) where
  -- `_last_retain_slots` after the call; `slots` are the names of the slots that exist.
  unfoldable pub retain : ℤ → Cluster Version → List Text → RetainSlots → RetainSlots
  unfolding slots_of_members stamp_all expire
  retain timestamp c slots last =
      let permanent = map (λ s. s.0) (permanent_physical_slots g c) in
      expire g.member_slots_ttl timestamp (
        if is_empty slots
        then last
        else stamp_all (slots_of_members own c.members) permanent timestamp last slots)

  -- The result of the call; none where no slot is retained.
  unfoldable pub build_retain_slots :
      ℤ → Cluster Version → List Text → RetainSlots → Option (List Text)
  unfolding retain
  build_retain_slots timestamp c slots last =
      let names = sorted (map (λ s. s.0) (retain timestamp c slots last)) in
      if is_empty names then none else some names

-- What `acquire_leader_lock` makes of `retain_slots` of the last status, if it acquires the lock.
unfoldable pub start_retention : ℤ → List Text → RetainSlots → RetainSlots
unfolding stamp
start_retention timestamp [] last = last
start_retention timestamp (name ∷ retain_slots) last =
    start_retention timestamp retain_slots (stamp last name timestamp)

unfoldable pub acquire_leader_lock : Bool → ℤ → List Text → RetainSlots → RetainSlots
unfolding start_retention
acquire_leader_lock acquired timestamp retain_slots last =
    if acquired then start_retention timestamp retain_slots [] else last
