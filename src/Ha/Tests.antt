-- ===== src/Ha/Tests.antt =====
-- A leader race in a cluster of three nodes, whose leader `a` is gone.
use area.Common.{
  ℕ, pos, ◌+ℤ◌, ◌-ℤ◌, ◌≤ℤ◌, ltb_ℤ, ◌≡◌, refl, arith, Bool, true, false, Option, none, some, List,
  [], ◌∷◌, codes, eq_text, lower, if◌then◌else◌,
}
use Prim.Native.String.{String}
use area.Collections.{CaseInsensitiveSet, same_key, add, of_values, union, issubset}
use area.Quorum.Resolver.{overlap_guaranteed}
use area.Tags.{nofailover, failover_priority, bool_tag, priority_tag, get_tag, number_of, is_true}
use area.Sync.Names.{is_space, str_to_list, split, strip_left, strip_right}
use area.Sync.State.{is_set, or_empty, members, voters, is_empty_state, matches, leader_matches}
use area.Cluster.Member.{Member, remote_member}
use area.Cluster.View.{Cluster, has_failover, failover_len, timeline}
use area.Ha.Status.{
  ApiResponse, fetch_node_status, from_api_response, unknown, is_capable, failover_limitation,
}
use area.Ha.Node.{
  Settings, Node, Ha, sync_mode_is_active, is_quorum_commit_mode, quorum_commit_mode_is_active,
  is_lagging,
}
use area.Ha.Race.{
  is_name, is_named, voting_set, quorum, rivals, former_leader, is_outranked, count_vote, consider,
  poll, first_tally, enough, is_eligible, wins, is_healthiest,
}
use area.Ha.Candidates.{failover_candidate}
use area.Ha.Manual.{
  is_healthiest_node, stand, race, is_rightful_primary, is_shut_out, extend_members,
  failsafe_members, by_name_onto, put_member,
}
use area.Ha.NoLoss.{wins-HasCommit}
use area.Ha.Allowed.{is_healthiest_node-nofailover, is_healthiest_node-matches}

abbrev node : String → Member
node name = remote_member (codes name) (codes "http://")

abbrev nodes : List Member
nodes = node "a" ∷ node "b" ∷ node "c" ∷ []

abbrev pub view : Cluster ℕ
view = record {
  initialize = none;
  leader = none;
  status = record { last_lsn = pos 100; slots = none; retain_slots = [] };
  members = nodes;
  failover = none;
  sync = record {
    version = some 1;
    leader = some (codes "a");
    sync_standby = some (codes "b,c");
    quorum = pos 1;
  };
  history = none;
  failsafe = none;
}

abbrev pub settings : Settings
settings = record {
  is_paused = false;
  check_timeline = false;
  is_standby_cluster = false;
  is_synchronous_mode = true;
  is_quorum_commit_mode = true;
  is_synchronous_mode_strict = false;
  failsafe_mode = false;
  maximum_lag_on_failover = pos 1048576;
}

abbrev replica : Node
replica = record {
  name = codes "b";
  tags = [];
  is_primary = false;
  sysid = [];
  primary_timeline = pos 0;
  replica_timeline = some (pos 1);
  last_operation = pos 100;
  supports_multiple_sync = true;
  watchdog_is_healthy = true;
}

abbrev pub ha : Ha ℕ
ha = record {
  settings = settings;
  node = replica;
  cluster = view;
  old_cluster = view;
  shares_members = false;
  dcs_failsafe = none;
  ttl = pos 30;
  time = pos 1000;
  released_leader_key_timestamp = pos 0;
  last_timeline = none;
  requests = [];
}

abbrev response : ApiResponse
response = record {
  location = false;
  received_location = pos 100;
  replayed_location = pos 90;
  role = codes "replica";
  tags = [];
  timeline = pos 1;
  watchdog_failed = false;
}

abbrev answer_if : Bool → Option ApiResponse
answer_if b = if b then some response else none

-- Only `c` answers.
abbrev answers : Member → Option ApiResponse
answers m = answer_if (eq_text m.name (codes "c"))

abbrev acks : CaseInsensitiveSet
acks = codes "a" ∷ codes "c" ∷ []

-- A node whose answer has a position is `c`.
answering_node :
    (m : Member) (b : Bool)
    → ltb_ℤ (pos 0) (fetch_node_status (λ _. answer_if b) m).wal_position ≡ true
    → pos 95 ≤ℤ (fetch_node_status (λ _. answer_if b) m).wal_position
unfolding fetch_node_status from_api_response unknown eq_text
answering_node m true h = omega arith
answering_node m false h = cc

running_node :
    (m : Member)
    → ltb_ℤ (pos 0) (fetch_node_status answers m).wal_position ≡ true
    → pos 95 ≤ℤ (fetch_node_status answers m).wal_position
unfolding fetch_node_status
running_node m h = answering_node m (eq_text m.name (codes "c")) h

wins-HasCommit_example : pos 95 ≤ℤ replica.last_operation
unfolding quorum_commit_mode_is_active is_quorum_commit_mode is_empty_state is_set is_name eq_text
    rivals nofailover bool_tag get_tag voting_set members voters str_to_list split strip_left
    strip_right is_space or_empty of_values overlap_guaranteed union issubset same_key lower ◌+ℤ◌
    ◌-ℤ◌ wins is_eligible is_lagging poll fetch_node_status from_api_response unknown is_capable
    failover_limitation number_of consider count_vote is_outranked is_named failover_priority
    priority_tag is_true sync_mode_is_active leader_matches first_tally enough quorum former_leader
    add timeline remote_member
wins-HasCommit_example =
    wins-HasCommit ha answers nodes true none (pos 1) (of_values (codes "b" ∷ codes "c" ∷ []))
      (codes "a") acks (pos 95) refl refl (refl, (refl, (refl, tt))) refl refl (refl, (refl, tt))
      refl (omega arith) (λ m a p. running_node m p, λ e. omega arith) refl

abbrev tagged : Ha ℕ
tagged = record ha {
  node = record replica {
    tags =
        record {
          name = codes "nofailover";
          value = some (record {
            truth = true;
            number = some (pos 1);
            flag = some true;
            text = codes "true";
          });
        }
        ∷ [];
    is_primary = true;
    primary_timeline = pos 1;
  };
}

is_healthiest_node-nofailover_example : tagged.node.is_primary ≡ true
unfolding nofailover bool_tag get_tag number_of is_true is_healthiest_node stand is_rightful_primary
    timeline has_failover failover_len eq_text priority_tag ◌-ℤ◌ ◌+ℤ◌
is_healthiest_node-nofailover_example = is_healthiest_node-nofailover answers tagged refl refl

-- The same cluster without quorum commit, where both standbys are synchronous.
abbrev multisync : Ha ℕ
multisync = record ha { settings = record settings { is_quorum_commit_mode = false } }

is_healthiest_node-matches_example : matches (some (codes "b")) true multisync.cluster.sync ≡ true
unfolding is_healthiest_node stand race is_shut_out extend_members failsafe_members by_name_onto
    put_member quorum_commit_mode_is_active is_quorum_commit_mode is_empty_state is_set is_name
    eq_text rivals nofailover bool_tag get_tag voting_set members voters str_to_list split
    strip_left strip_right is_space or_empty of_values overlap_guaranteed union issubset same_key
    lower ◌+ℤ◌ ◌-ℤ◌ wins is_eligible is_lagging poll fetch_node_status from_api_response unknown
    is_capable failover_limitation number_of consider count_vote is_outranked is_named
    failover_priority priority_tag is_true sync_mode_is_active leader_matches first_tally enough
    quorum former_leader add timeline remote_member matches has_failover failover_len
    failover_candidate is_healthiest
is_healthiest_node-matches_example =
    is_healthiest_node-matches answers multisync refl refl refl refl refl

-- The leader `a`, and both standbys answer.
abbrev pub leading : Ha ℕ
leading = record ha { node = record replica { name = codes "a" } }

abbrev pub all_answer : Member → Option ApiResponse
all_answer m = some response
