-- ===== src/Sync/Tests.antt =====
-- The /sync key of a small cluster.
use area.Common.{ℕ, pos, ◌≡◌, refl, true, false, some, List, [], ◌∷◌, some_of, Text, codes}
use area.Sync.Names.{is_space, sorted}
use area.Sync.State.{
  SyncState, sync_state, from_node, voters, members, matches, leader_matches, or_empty, is_set,
}
use area.Sync.Written.{from_node-sync_state}
use area.Sync.Matching.{matches-members, same_name}

abbrev standbys : List Text
standbys = codes "zoo" ∷ codes "bar" ∷ []

abbrev state : SyncState ℕ
state = record {
  version = some 1;
  leader = some (codes "foo");
  sync_standby = some (codes "bar, zoo");
  quorum = pos 0;
}

from_node-sync_state_example :
    (let s =
        from_node {Version = ℕ}
          (some 1)
          (some (sync_state (some (codes "foo")) standbys (some (pos 1)))) in
      (s.leader ≡ some (codes "foo"))
      × (voters s ≡ sorted standbys)
      × (members s ≡ codes "foo" ∷ sorted standbys)
      × (s.quorum ≡ pos 1))
unfolding is_set is_space
from_node-sync_state_example =
    from_node-sync_state (some 1) (codes "foo") standbys (pos 1) refl refl

matches-members_example :
    (matches (some (codes "ZOO")) false state ≡ some_of (same_name (codes "ZOO")) (voters state))
    × (matches (some (codes "ZOO")) true state ≡ some_of (same_name (codes "ZOO")) (members state))
    × (leader_matches (some (codes "ZOO")) state ≡ same_name (codes "ZOO") (or_empty state.leader))
unfolding is_set is_space or_empty
matches-members_example = matches-members state (codes "ZOO") refl refl refl
