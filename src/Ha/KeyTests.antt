-- ===== src/Ha/KeyTests.antt =====
-- The names before a promotion, where the /sync key lists `b` and `c`.
use area.Common.{pos, ◌≡◌, refl, true, codes}
use area.Collections.{of_values}
use area.Quorum.Resolver.{overlap_guaranteed}
use area.Sync.State.{is_set, is_empty_state, or_empty, voters}
use area.Ha.Node.{quorum_commit_mode_is_active, is_quorum_commit_mode}
use area.Ha.Prepromote.{names_before_promote}
use area.Ha.Promotion.{names_before_promote-overlap_guaranteed}
use area.Ha.Tests.{ha}

names_before_promote-overlap_guaranteed_example :
    overlap_guaranteed
      (codes "a")
      (pos 1)
      (of_values (voters ha.cluster.sync))
      (names_before_promote ha (pos 1)).1
      (names_before_promote ha (pos 1)).0
      (codes "b")
    ≡ true
unfolding quorum_commit_mode_is_active is_quorum_commit_mode is_empty_state is_set or_empty
names_before_promote-overlap_guaranteed_example =
    names_before_promote-overlap_guaranteed ha (pos 1) refl
