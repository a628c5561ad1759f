-- ===== src/Ha/Race.antt =====
-- `_is_healthiest_node`: this node against the others.
use area.Common.{
  ℕ, suc, ◌==◌, ℤ, pos, negsuc, ◌+ℤ◌, ltb_ℤ, leb_ℤ, eqb_ℤ, nonzero, Bool, false, not, ◌&&◌, ◌||◌,
  Option, none, some, List, [], ◌∷◌, map, keep, Text, eq_text, if◌then◌else◌,
}
use area.Collections.{CaseInsensitiveSet, contains, of_values}
use area.Tags.{nofailover, failover_priority}
use area.Sync.State.{is_set, members, leader_matches}
use area.Cluster.Member.{Member, Leader}
use area.Cluster.View.{timeline}
use area.Ha.Status.{ApiResponse, MemberStatus, fetch_node_status, is_capable}
use area.Ha.Node.{Ha, sync_mode_is_active, quorum_commit_mode_is_active, is_lagging}

-- The votes so far, and the nodes found ahead.
pub record Tally : Type 0 where
  pub quorum_votes : ℤ
  pub nodes_ahead : ℕ

-- `name is not None and name == other`
unfoldable pub is_name : Option Text → Text → Bool
is_name none name = false
is_name (some n) name = eq_text n name

-- `name and name == other`
unfoldable pub is_named : Option Text → Text → Bool
unfolding is_name
is_named n name = is_set n && is_name n name

module _ {Version : Type 0} (ha : Ha Version) where
  unfoldable pub voting_set : CaseInsensitiveSet
  voting_set = if quorum_commit_mode_is_active ha then of_values (members ha.cluster.sync) else []

  unfoldable pub quorum : ℤ
  quorum = if quorum_commit_mode_is_active ha then ha.cluster.sync.quorum else pos 0

  -- The nodes that are asked.
  unfoldable pub rivals : List Member → List Member
  unfolding voting_set
  rivals candidates =
      keep
        (λ m.
          not (eq_text m.name ha.node.name)
          && is_set m.api_url
          && (not (nofailover m.tags) || contains m.name voting_set))
        candidates

  -- The former leader, whose priority does not count.
  unfoldable pub former_leader : Option (Leader Version) → Option Text
  former_leader leader =
      if sync_mode_is_active ha
      then ha.cluster.sync.leader
      else elim leader [ none ↦ none | some l ↦ some l.member.name ]

  -- Whether a node that is as far has a higher priority.
  unfoldable pub is_outranked : Option Text → MemberStatus → Bool
  is_outranked leader_name st =
      eqb_ℤ ha.node.last_operation st.wal_position
      && ltb_ℤ (failover_priority ha.node.tags) (failover_priority st.tags)
      && not (is_named leader_name st.member.name)

  -- A node that is not ahead and has PostgreSQL running.
  unfoldable pub count_vote : Option Text → MemberStatus → Tally → Option Tally
  unfolding is_outranked
  count_vote leader_name st tally =
      let quorum_vote = contains st.member.name voting_set in
      if is_outranked leader_name st && (not (sync_mode_is_active ha) || quorum_vote)
      then none
      else some (record tally {
        quorum_votes = if quorum_vote then tally.quorum_votes +ℤ pos 1 else tally.quorum_votes;
      })

  -- One round of the loop; none where it returns False.
  unfoldable pub consider : Option Text → MemberStatus → Tally → Option Tally
  unfolding count_vote
  consider leader_name st tally =
      if not (is_capable st)
      then some tally
      else if is_false st.in_recovery
      then none
      else if ltb_ℤ ha.node.last_operation st.wal_position
      then if not (sync_mode_is_active ha)
          || not (leader_matches (some st.member.name) ha.cluster.sync)
        then none
        else some (record tally { nodes_ahead = suc tally.nodes_ahead })
      else if ltb_ℤ (pos 0) st.wal_position
      then count_vote leader_name st tally
      else some tally
    where
      is_false : Option Bool → Bool
      is_false none = false
      is_false (some b) = not b

  unfoldable pub poll : Option Text → List MemberStatus → Tally → Option Tally
  poll leader_name [] tally = some tally
  poll leader_name (st ∷ sts) tally = elim (consider leader_name st tally) [
    | none ↦ none
    | some tally' ↦ poll leader_name sts tally'
  ]

  unfoldable pub first_tally : Tally
  unfolding voting_set
  first_tally = record {
    quorum_votes = if contains ha.node.name voting_set then pos 0 else negsuc 0;
    nodes_ahead = 0;
  }

  -- The last line of the method.
  unfoldable pub enough : Tally → Bool
  unfolding quorum
  enough tally =
      not (quorum_commit_mode_is_active ha)
      || leb_ℤ quorum tally.quorum_votes
      || (tally.nodes_ahead == 0 && is_name ha.cluster.sync.leader ha.node.name)

  -- The guards on this node alone.
  unfoldable pub is_eligible : Bool → Bool
  is_eligible check_replication_lag =
      not (check_replication_lag && is_lagging ha ha.node.last_operation)
      && (ha.settings.is_standby_cluster
          || not ha.settings.check_timeline
          || is_recent ha.node.replica_timeline)
    where
      is_recent : Option ℤ → Bool
      is_recent none = false
      is_recent (some t) = not (ltb_ℤ t (timeline ha.cluster))

  unfoldable pub wins :
      (Member → Option ApiResponse) → List Member → Bool → Option (Leader Version) → Bool
  unfolding is_eligible poll rivals first_tally enough former_leader
  wins request candidates check_replication_lag leader =
      if is_eligible check_replication_lag
      then elim (poll (former_leader leader) (map (fetch_node_status request) (rivals candidates))
          first_tally) [ none ↦ false | some tally ↦ enough tally ]
      else false

-- `if my_timeline: self._last_timeline = my_timeline`
unfoldable pub remember_timeline : {Version : Type 0} → Ha Version → Ha Version
remember_timeline ha = elim ha.node.replica_timeline [
  | none ↦ ha
  | some t ↦ if nonzero t then record ha { last_timeline = some t } else ha
]

unfoldable pub is_healthiest :
    {Version : Type 0} (ha : Ha Version)
    → (Member → Option ApiResponse)
    → List Member
    → Bool
    → Option (Leader Version)
    → Bool × Ha Version
unfolding wins remember_timeline
is_healthiest ha request candidates check_replication_lag leader =
    (wins ha request candidates check_replication_lag leader, remember_timeline ha)
