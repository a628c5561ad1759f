-- ===== src/Ha/Node.antt =====
-- What a cycle of the HA loop knows of its node, of the configuration and of the cluster.
use area.Common.{ℤ, ◌-ℤ◌, ltb_ℤ, Bool, not, ◌&&◌, Option, List, Text}
use area.Tags.{Tags}
use area.Sync.State.{is_empty_state}
use area.Cluster.View.{Cluster}

-- The global configuration, as its properties give it.
pub record Settings : Type 0 where
  pub is_paused : Bool
  pub check_timeline : Bool
  pub is_standby_cluster : Bool
  pub is_synchronous_mode : Bool
  pub is_quorum_commit_mode : Bool
  pub is_synchronous_mode_strict : Bool
  pub failsafe_mode : Bool
  pub maximum_lag_on_failover : ℤ

-- The PostgreSQL instance of this node and its tags.
pub record Node : Type 0 where
  pub name : Text
  pub tags : Tags
  pub is_primary : Bool
  pub sysid : Text
  pub primary_timeline : ℤ
  pub replica_timeline : Option ℤ
  pub last_operation : ℤ
  pub supports_multiple_sync : Bool
  pub watchdog_is_healthy : Bool

-- A request to the configuration store: `manual_failover('', '', version=version)`.
pub data Request (Version : Type 0) : Type 0 where
  remove_failover : Version → Request Version

-- `shares_members`: the two views have one list of members, as after a view was stored for both.
pub record Ha (Version : Type 0) : Type 0 where
  pub settings : Settings
  pub node : Node
  pub cluster : Cluster Version
  pub old_cluster : Cluster Version
  pub shares_members : Bool
  pub dcs_failsafe : Option (List (Text × Text))
  pub ttl : ℤ
  pub time : ℤ
  pub released_leader_key_timestamp : ℤ
  pub last_timeline : Option ℤ
  pub requests : List (Request Version)

module _ {Version : Type 0} where
  unfoldable pub sync_mode_is_active : Ha Version → Bool
  sync_mode_is_active ha = ha.settings.is_synchronous_mode && not (is_empty_state ha.cluster.sync)

  unfoldable pub is_quorum_commit_mode : Ha Version → Bool
  is_quorum_commit_mode ha = ha.settings.is_quorum_commit_mode && ha.node.supports_multiple_sync

  unfoldable pub quorum_commit_mode_is_active : Ha Version → Bool
  unfolding is_quorum_commit_mode
  quorum_commit_mode_is_active ha = is_quorum_commit_mode ha && not (is_empty_state ha.cluster.sync)

  unfoldable pub is_lagging : Ha Version → ℤ → Bool
  is_lagging ha wal_position =
      ltb_ℤ ha.settings.maximum_lag_on_failover (ha.cluster.status.last_lsn -ℤ wal_position)
