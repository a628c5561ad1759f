-- ===== src/Ha/NoLoss.antt =====
-- In quorum commit mode the winner of the leader race has every acknowledged commit.
use area.Common.{
  ℤ, pos, ◌≤ℤ◌, ◌<ℤ◌, ltb_ℤ, ◌≡◌, sym, ◌∙◌, inl, inr, arith, Bool-cases, Bool, true, false, Option,
  List, ◌∷◌, length, Text,
}
use area.Collections.{CaseInsensitiveSet, contains, same_key, union, of_values}
use area.Collections.Laws.{contains-congr}
use area.Collections.Size.{IsDistinct, Includes, Includes-of_forall}
use area.Quorum.Resolver.{overlap_guaranteed, singleton, nonempty}
use area.Quorum.Overlap.{overlap}
use area.Sync.State.{or_empty, voters}
use area.Cluster.Member.{Member, Leader}
use area.Ha.Status.{ApiResponse}
use area.Ha.Node.{Ha, quorum_commit_mode_is_active}
use area.Ha.Race.{is_name, voting_set, rivals, former_leader, wins}
use area.Ha.Promoters.{
  is_vote-parts, fetch, voting, promoters, wins-parts, length-promoters, promoters-IsDistinct,
  promoters-is_voter, contains-voting_set, promoters-exceed,
}
use area.Ha.Votes.{is_vote, names, contains-names}

module _ {Version : Type 0} (ha : Ha Version) (request : Member → Option ApiResponse)
    (candidates : List Member) where
  -- What the nodes that acknowledged a commit at a position report: at least that position, if they
  -- run, and this node has it, if it is one of them.
  abbrev pub HasCommit : CaseInsensitiveSet → ℤ → Type 0
  HasCommit acks c =
      ((m : Member)
        → contains m.name acks ≡ true
        → ltb_ℤ (pos 0) (fetch ha request candidates m).wal_position ≡ true
        → c ≤ℤ (fetch ha request candidates m).wal_position)
      × (contains ha.node.name acks ≡ true → c ≤ℤ ha.node.last_operation)

  promoter-HasCommit :
      (acks : CaseInsensitiveSet) (c : ℤ) (x : Text)
      → HasCommit acks c
      → contains x acks ≡ true
      → contains x (promoters ha request candidates) ≡ true
      → c ≤ℤ ha.node.last_operation
  promoter-HasCommit acks c x has a p = elim (Bool-cases (contains ha.node.name (voting_set ha))) [
    | inl e ↦ elim (Bool-cases (same_key x ha.node.name)) [
      | inl k ↦ has.1 (sym (contains-congr x ha.node.name acks k) ∙ a)
      | inr k ↦ by_vote (rw (e, k) at p)
    ]
    | inr e ↦ by_vote (rw e at p)
  ]
    where
      by_vote : contains x (voting ha request candidates) ≡ true → c ≤ℤ ha.node.last_operation
      by_vote v =
          let (m, k, w) =
            contains-names (λ m. is_vote ha (fetch ha request candidates m)) (rivals ha candidates)
              x v in
          let (_, parts) = is_vote-parts ha (fetch ha request candidates m) w in
          let le = has.0 m (sym (contains-congr x m.name acks k) ∙ a) parts.1 in
          let le' = parts.0 in omega arith

  -- In quorum commit mode, a node that wins the leader race and is not the leader in the /sync key has
  -- every commit that was acknowledged by more than `numsync` distinct nodes out of the old primary and
  -- its synchronous standbys, if the /sync key and those standbys pass the overlap test of
  -- `check_invariants`, the names of the nodes that are asked and of this node differ up to case, and
  -- the nodes that acknowledged the commit report at least its position when they run.
  pub wins-HasCommit :
      (check_replication_lag : Bool) (leader : Option (Leader Version)) (numsync : ℤ)
      (sync : CaseInsensitiveSet) (primary : Text) (acks : CaseInsensitiveSet) (c : ℤ)
      → quorum_commit_mode_is_active ha ≡ true
      → is_name ha.cluster.sync.leader ha.node.name ≡ false
      → IsDistinct (ha.node.name ∷ names (rivals ha candidates))
      → nonempty (of_values (voters ha.cluster.sync)) ≡ true
      → overlap_guaranteed
          (or_empty ha.cluster.sync.leader)
          ha.cluster.sync.quorum
          (of_values (voters ha.cluster.sync))
          numsync
          sync
          primary
        ≡ true
      → IsDistinct acks
      → Includes (union sync (singleton primary)) acks
      → numsync <ℤ pos (length acks)
      → HasCommit acks c
      → wins ha request candidates check_replication_lag leader ≡ true
      → c ≤ℤ ha.node.last_operation
  wins-HasCommit check leader numsync sync primary acks c a l d v o da ia na has w =
      let (t, e, k) = wins-parts ha request candidates check leader w in
      let (x, xa, xp) =
        overlap (or_empty ha.cluster.sync.leader) ha.cluster.sync.quorum
          (of_values (voters ha.cluster.sync)) numsync sync primary acks
          (promoters ha request candidates) v o da (promoters-IsDistinct ha request candidates d) ia
          (Includes-of_forall _ (promoters ha request candidates) (λ x h.
            sym (contains-voting_set ha request candidates x a)
            ∙ promoters-is_voter ha request candidates x h))
          na
          (promoters-exceed ha request candidates t a l k
            (length-promoters ha request candidates (former_leader ha leader) t e)) in
      promoter-HasCommit acks c x has xa xp
