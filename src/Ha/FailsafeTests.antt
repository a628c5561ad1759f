-- ===== src/Ha/FailsafeTests.antt =====
-- The primary `a` asks `b` at time 100; the topology has both.
use area.Common.{pos, refl, true, false, none, some, List, [], ◌∷◌, Text, codes, eq_text}
use area.Ha.Failsafe.{
  Announcement, reset_state, Delivery, answered, Peers, update_failsafe, post_failsafe,
  call_failsafe_member, call, update, update_slots, feedback, check_failsafe_topology,
}
use area.Ha.Agreed.{HasAgreed, check_failsafe_topology-HasAgreed}

abbrev announcement : Announcement
announcement = record {
  name = codes "a";
  conn_url = some (codes "postgres://a");
  api_url = some (codes "http://a");
  slots = none;
}

abbrev peers : Peers
peers name = record {
  failsafe_mode = true;
  is_leading = false;
  last_wal_lsn = some (pos 7);
  failsafe = reset_state;
}

abbrev delivery : Text → Delivery
delivery name = answered (pos 100)

abbrev topology : List (Text × Text)
topology = (codes "a", codes "http://a") ∷ (codes "b", codes "http://b") ∷ []

check_failsafe_topology-HasAgreed_example :
    HasAgreed (pos 30) announcement delivery peers (codes "b")
unfolding check_failsafe_topology call call_failsafe_member post_failsafe update_failsafe update
    feedback update_slots eq_text
check_failsafe_topology-HasAgreed_example =
    check_failsafe_topology-HasAgreed (pos 30) topology announcement delivery peers reset_state
      (codes "b") refl refl
