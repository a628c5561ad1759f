-- ===== src/Slots/RetainTests.antt =====
-- A member i of the primary p that goes away for some minutes.
use Prim.Native.String.{String}
use area.Common.{
  ℤ, pos, ◌+ℤ◌, ◌≡◌, refl, int_laws, true, false, none, List, [], ◌∷◌, ◌++◌, Text, codes, lower,
  eq_text,
}
use area.Tags.{Tags, nostream, nofailover, bool_tag, get_tag}
use area.Sync.Names.{sorted, insert}
use area.Sync.State.{empty}
use area.Cluster.Member.{Member}
use area.Cluster.View.{Cluster}
use area.Slots.Name.{is_slot_char, replace_chars, slot_name_from_member_name}
use area.Slots.Wanted.{replica, has_slot, SlotSettings}
use area.Slots.Replication.{Asked, get_replication_slots, permanent_physical_slots}
use area.Slots.Retain.{
  stamp, found_self, slots_of_members, is_listed, build_retain_slots, acquire_leader_lock,
  stamp_all,
}
use area.Slots.Retention.{Call}
use area.Slots.Away.{away-has_slot, slots_of_members-own}

abbrev node : String → Tags → Member
node name tags = record {
  name = codes name;
  tags = tags;
  api_url = none;
  conn_url = none;
  member_state = none;
  lsn = none;
}

abbrev view : List Member → List Text → Cluster Text
view members retain_slots = record {
  initialize = none;
  leader = none;
  status = record { last_lsn = pos 9; slots = none; retain_slots = retain_slots };
  members = members;
  failover = none;
  sync = empty none;
  history = none;
  failsafe = none;
}

abbrev settings : SlotSettings
settings = record {
  use_slots = true;
  is_standby_cluster = false;
  member_slots_ttl = pos 1800;
  permanent_slots = [];
}

abbrev standby : Asked
standby = record {
  name = codes "b";
  postgresql_name = codes "b";
  tags = [];
  role = replica;
  can_advance_slots = true;
}

abbrev first : Call Text
first = record {
  time = pos 1000;
  view = view (node "p" [] ∷ node "i" [] ∷ []) [];
  slots = codes "i" ∷ [];
}

abbrev away : ℤ → Call Text
away time = record { time = time; view = view (node "p" [] ∷ []) []; slots = codes "i" ∷ [] }

away-has_slot_example :
    has_slot
      (get_replication_slots settings (view (node "p" [] ∷ []) (codes "i" ∷ [])) false standby)
      (codes "i")
    ≡ true
unfolding slots_of_members found_self nostream get_tag nofailover bool_tag
    slot_name_from_member_name replace_chars lower is_slot_char eq_text permanent_physical_slots
    build_retain_slots stamp stamp_all sorted insert ◌+ℤ◌
away-has_slot_example =
    away-has_slot settings (codes "p") first (away (pos 1300) ∷ []) (away (pos 2700)) []
      (view (node "p" [] ∷ []) (codes "i" ∷ [])) false standby (codes "i") refl refl refl
      (omega int_laws) (refl, omega int_laws, tt) refl (omega int_laws) refl refl refl refl

slots_of_members-own_example :
    is_listed
      (slot_name_from_member_name (codes "p"))
      (slots_of_members (codes "p") ((node "p" [] ∷ []) ++ node "i" [] ∷ []))
    ≡ true
unfolding eq_text
slots_of_members-own_example =
    slots_of_members-own (codes "p") (node "p" [] ∷ []) (node "i" []) refl

-- After the time to live the slot is given up.
given_up :
    build_retain_slots settings
      (codes "p")
      (pos 2800)
      (view (node "p" [] ∷ []) [])
      (codes "i" ∷ [])
      ((codes "i", pos 1000) ∷ [])
    ≡ none
unfolding build_retain_slots slots_of_members found_self nostream get_tag slot_name_from_member_name
    replace_chars lower is_slot_char eq_text permanent_physical_slots stamp stamp_all sorted insert
    ◌+ℤ◌
given_up = refl

-- A new leader counts the time from when it acquires the lock.
acquired : acquire_leader_lock true (pos 50) (codes "i" ∷ []) [] ≡ (codes "i", pos 50) ∷ []
unfolding acquire_leader_lock
acquired = refl
