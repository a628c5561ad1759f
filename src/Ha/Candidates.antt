-- ===== src/Ha/Candidates.antt =====
-- `get_failover_candidates` and `is_failover_possible`.
use area.Common.{
  ℤ, pos, negsuc, ◌+ℤ◌, ltb_ℤ, leb_ℤ, nonzero, Bool, false, not, ◌&&◌, ◌||◌, Option, none, some,
  List, [], ◌∷◌, map, keep, some_of, Text, eq_text, if◌then◌else◌,
}
use area.Tags.{nofailover}
use area.Sync.State.{is_set, matches, or_empty}
use area.Cluster.Member.{Member}
use area.Cluster.View.{Failover, has_failover, timeline}
use area.Ha.Status.{ApiResponse, MemberStatus, fetch_node_status, is_capable}
use area.Ha.Node.{Ha, sync_mode_is_active, quorum_commit_mode_is_active, is_lagging}

-- `failover and failover.candidate`, and the same for the leader.
unfoldable pub failover_candidate : {Version : Type 0} → Option (Failover Version) → Option Text
failover_candidate none = none
failover_candidate (some f) = f.candidate

unfoldable pub failover_leader : {Version : Type 0} → Option (Failover Version) → Option Text
failover_leader none = none
failover_leader (some f) = f.leader

module _ {Version : Type 0} (ha : Ha Version) where
  -- The names that `get_failover_candidates` leaves out. An absent candidate is no name.
  unfoldable pub excluded : Bool → List Text
  unfolding failover_candidate
  excluded exclude_failover_candidate =
      ha.node.name
      ∷ (if has_failover ha.cluster.failover && exclude_failover_candidate
          then names_of (failover_candidate ha.cluster.failover)
          else [])
    where
      names_of : Option Text → List Text
      names_of none = []
      names_of (some name) = name ∷ []

  -- `is_eligible` of `get_failover_candidates`
  unfoldable pub is_candidate : Bool → Member → Bool
  unfolding excluded failover_candidate failover_leader
  is_candidate exclude_failover_candidate node =
      let failover = has_failover ha.cluster.failover in
      if sync_mode_is_active ha
        && not (matches (some node.name) false ha.cluster.sync)
        && not (failover && not (is_set (failover_leader ha.cluster.failover)))
      then false
      else not (some_of (eq_text node.name) (excluded exclude_failover_candidate))
        && not (nofailover node.tags)
        && is_set node.api_url
        && (exclude_failover_candidate
            || not failover
            || not (is_set (failover_candidate ha.cluster.failover))
            || eq_text node.name (or_empty (failover_candidate ha.cluster.failover)))

  unfoldable pub get_failover_candidates : Bool → List Member
  get_failover_candidates exclude_failover_candidate =
      keep (is_candidate exclude_failover_candidate) ha.cluster.members

  -- The tests that a candidate passes to be counted.
  unfoldable pub is_promotable : ℤ → MemberStatus → Bool
  is_promotable cluster_lsn st =
      is_capable st
      && not (
          (nonzero cluster_lsn && ltb_ℤ st.wal_position cluster_lsn)
          || (not (nonzero cluster_lsn) && is_lagging ha st.wal_position))
      && not (
          ha.settings.check_timeline
          && (not (nonzero st.timeline) || ltb_ℤ st.timeline (timeline ha.cluster)))

  unfoldable pub count_promotable : ℤ → List MemberStatus → ℤ → ℤ
  count_promotable cluster_lsn [] quorum_votes = quorum_votes
  count_promotable cluster_lsn (st ∷ sts) quorum_votes =
      count_promotable cluster_lsn sts
        (if is_promotable cluster_lsn st then quorum_votes +ℤ pos 1 else quorum_votes)

  unfoldable pub check_quorum : Bool → Bool
  unfolding failover_candidate
  check_quorum exclude_failover_candidate =
      quorum_commit_mode_is_active ha
      && not (
          has_failover ha.cluster.failover
          && is_set (failover_candidate ha.cluster.failover)
          && not exclude_failover_candidate)

  unfoldable pub is_failover_possible : (Member → Option ApiResponse) → ℤ → Bool → Bool
  unfolding get_failover_candidates count_promotable check_quorum
  is_failover_possible request cluster_lsn exclude_failover_candidate =
      let statuses =
        map (fetch_node_status request) (get_failover_candidates exclude_failover_candidate) in
      let quorum_votes = count_promotable cluster_lsn statuses (negsuc 0) in
      if check_quorum exclude_failover_candidate && ltb_ℤ quorum_votes ha.cluster.sync.quorum
      then false
      else leb_ℤ (pos 0) quorum_votes
