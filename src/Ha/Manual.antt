-- ===== src/Ha/Manual.antt =====
-- `manual_failover_process_no_leader` and `is_healthiest_node`.
use area.Common.{
  pos, ◌-ℤ◌, ltb_ℤ, Bool, true, false, not, ◌&&◌, ◌||◌, Option, none, some, List, [], ◌∷◌, ◌++◌,
  map, keep, some_of, is_empty, Text, eq_text, if◌then◌else◌,
}
use area.Tags.{nofailover}
use area.Sync.State.{is_set, or_empty, matches}
use area.Cluster.Member.{Member, remote_member}
use area.Cluster.View.{Failover, has_failover, get_member, timeline}
use area.Ha.Status.{ApiResponse, fetch_node_status, is_capable}
use area.Ha.Node.{Ha, remove_failover, sync_mode_is_active, is_quorum_commit_mode}
use area.Ha.Race.{is_name, is_healthiest}
use area.Ha.Candidates.{is_failover_possible}

-- `{m.name: m for m in members}.values()`: the last member of a name, at the place of the first.
unfoldable pub put_member : Member → List Member → List Member
put_member m [] = m ∷ []
put_member m (n ∷ ms) =
    let rest = put_member m ms in if eq_text n.name m.name then m ∷ ms else n ∷ rest

unfoldable pub by_name_onto : List Member → List Member → List Member
by_name_onto known [] = known
by_name_onto known (m ∷ ms) = by_name_onto (put_member m known) ms

module _ {Version : Type 0} (request : Member → Option ApiResponse) where
  -- The race among all nodes but the former leader.
  unfoldable pub race_without : Failover Version → Ha Version → Option Bool × Ha Version
  race_without failover ha =
      let (won, ha) =
        is_healthiest ha request
          (keep (λ m. not (is_name failover.leader m.name)) ha.cluster.members) false none in
      (some won, ha)

  -- From `if failover.leader` on.
  unfoldable pub switch_over : Failover Version → Ha Version → Option Bool × Ha Version
  unfolding race_without
  switch_over failover ha =
      if is_set failover.leader && is_name failover.leader ha.node.name
      then (some (not (is_failover_possible ha request (pos 0) (is_set failover.candidate))), ha)
      else race_without failover ha

  -- The candidate is a member that is able to take over.
  unfoldable pub candidate_is_capable : Failover Version → Ha Version → Bool
  candidate_is_capable failover ha =
      elim (get_member (or_empty failover.candidate) ha.cluster.members) [
        | none ↦ false
        | some member ↦ is_capable (fetch_node_status request member)
      ]

  unfoldable pub is_missing : Failover Version → Ha Version → Bool
  is_missing failover ha = elim (get_member (or_empty failover.candidate) ha.cluster.members) [
    | none ↦ true
    | some _ ↦ false
  ]

  -- The result is none where the stale failover key was removed.
  unfoldable pub manual_failover_process_no_leader :
      Failover Version → Ha Version → Option Bool × Ha Version
  unfolding switch_over candidate_is_capable is_missing
  manual_failover_process_no_leader failover ha =
      if is_set failover.candidate
      then if is_name failover.candidate ha.node.name
        then (some true, ha)
        else if ha.settings.is_paused
        then if is_missing failover ha && ha.node.is_primary
          then (none, record ha { requests = remove_failover failover.version ∷ ha.requests })
          else (some false, ha)
        else if ha.settings.is_synchronous_mode
            && not (is_quorum_commit_mode ha)
            && not (matches (some ha.node.name) true ha.cluster.sync)
        then (some false, ha)
        else if candidate_is_capable failover ha
        then (some false, ha)
        else switch_over failover ha
      else if ha.settings.is_paused
      then (some false, ha)
      else switch_over failover ha

  -- The guards on the failsafe topology.
  unfoldable pub is_shut_out : Ha Version → Bool
  is_shut_out ha = ha.settings.failsafe_mode && elim ha.dcs_failsafe [
    | none ↦ false
    | some topology ↦
        not (is_empty topology)
        && not (some_of (λ (t : Text × Text). eq_text t.0 ha.node.name) topology)
  ]

  unfoldable pub failsafe_members : Ha Version → List Member
  failsafe_members ha =
      if ha.settings.failsafe_mode
      then elim ha.dcs_failsafe [
        | none ↦ []
        | some topology ↦ map (λ (t : Text × Text). remote_member t.0 t.1) topology
      ]
      else []

  -- The lists that `all_known_members += …` extends: it is the list of the old view.
  unfoldable pub extend_members : Ha Version → List Member × Ha Version
  unfolding failsafe_members
  extend_members ha =
      let known = ha.old_cluster.members ++ failsafe_members ha in
      let all_known = known ++ (if ha.shares_members then known else ha.cluster.members) in
      (
        all_known,
        record ha {
          old_cluster = record ha.old_cluster { members = all_known };
          cluster = record ha.cluster {
            members = if ha.shares_members then all_known else ha.cluster.members;
          };
        },
      )

  -- The race of a replica when no failover is requested.
  unfoldable pub race : Ha Version → Bool × Ha Version
  unfolding is_shut_out extend_members by_name_onto
  race ha =
      if not ha.node.watchdog_is_healthy || is_shut_out ha
      then (false, ha)
      else (let (all_known, ha) = extend_members ha in
          if sync_mode_is_active ha
          then if not (is_quorum_commit_mode ha)
              && not (matches (some ha.node.name) true ha.cluster.sync)
            then (false, ha)
            else is_healthiest ha request
                (by_name_onto [] (keep (λ m. matches (some m.name) true ha.cluster.sync) all_known))
                true ha.old_cluster.leader
          else is_healthiest ha request (by_name_onto [] all_known) true ha.old_cluster.leader)

  -- A running primary without the leader key.
  unfoldable pub is_rightful_primary : Ha Version → Bool
  is_rightful_primary ha =
      if ha.settings.is_paused
      then elim ha.cluster.initialize [
        | none ↦ true
        | some sysid ↦ is_empty sysid || eq_text ha.node.sysid sysid
      ]
      else not (ltb_ℤ ha.node.primary_timeline (timeline ha.cluster))

  -- `… or False`
  abbrev pub or_false : Option Bool × Ha Version → Bool × Ha Version
  or_false (none, ha) = (false, ha)
  or_false (some b, ha) = (b, ha)

  -- The part of `is_healthiest_node` for a node that is not to be paused in a manual failover.
  unfoldable pub stand : Ha Version → Bool × Ha Version
  unfolding race is_rightful_primary
  stand ha =
      if ha.node.is_primary
      then (is_rightful_primary ha, ha)
      else if ha.settings.is_paused
      then (false, ha)
      else if nofailover ha.node.tags
      then (false, ha)
      else elim ha.cluster.failover [
        | none ↦ race ha
        | some failover ↦
            if not (has_failover ha.cluster.failover)
            then race ha
            else if is_set failover.leader
                && sync_mode_is_active ha
                && not (matches (some ha.node.name) true ha.cluster.sync)
            then (false, ha)
            else or_false (manual_failover_process_no_leader failover ha)
      ]

  abbrev pub decided : Option Bool × Ha Version → Bool × Ha Version
  decided (none, ha) = stand ha
  decided (some b, ha) = (b, ha)

  unfoldable pub is_healthiest_node : Ha Version → Bool × Ha Version
  unfolding stand
  is_healthiest_node ha =
      if ltb_ℤ (ha.time -ℤ ha.released_leader_key_timestamp) ha.ttl
      then (false, ha)
      else if ha.settings.is_paused
          && not (nofailover ha.node.tags)
          && has_failover ha.cluster.failover
      then elim ha.cluster.failover [
        | none ↦ stand ha
        | some failover ↦ elim failover.scheduled_at [
          | some _ ↦ stand ha
          | none ↦ decided (manual_failover_process_no_leader failover ha)
        ]
      ]
      else stand ha
