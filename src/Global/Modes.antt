-- ===== src/Global/Modes.antt =====
-- What the readers of the configuration may rely on.
use area.Common.{ℤ, pos, codes, ◌≤ℤ◌, max_ℤ, ◌≡◌, arith, false, not, ◌&&◌, codes}
use area.Global.Config.{
  GlobalConfig, get_int, is_synchronous_mode, min_synchronous_nodes, synchronous_node_count,
  settings_of, limits_of,
}

max-≤ℤ : (a b : ℤ) → b ≤ℤ max_ℤ a b
max-≤ℤ a b = ground arith

-- A standby cluster is never synchronous, quorum commit makes any other cluster synchronous, and the
-- number of synchronous nodes is at least the least number.
pub settings_of-limits_of :
    (c : GlobalConfig)
    → (((settings_of c).is_standby_cluster && (settings_of c).is_synchronous_mode) ≡ false)
      × (((settings_of c).is_quorum_commit_mode
            && not (settings_of c).is_standby_cluster
            && not (settings_of c).is_synchronous_mode)
          ≡ false)
      × (min_synchronous_nodes c ≤ℤ (limits_of c).synchronous_node_count)
unfolding settings_of limits_of is_synchronous_mode synchronous_node_count
settings_of-limits_of c = (
  ground arith,
  ground arith,
  max-≤ℤ (get_int c (codes "synchronous_node_count") (pos 1)) (min_synchronous_nodes c),
)
