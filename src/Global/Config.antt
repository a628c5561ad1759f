-- ===== src/Global/Config.antt =====
-- `GlobalConfig`: its modes and numbers. A value is kept as what the parsers of utils.py, `bool` and
-- `str` make of it, as the values of tags are.
use area.Common.{
  ℤ, pos, negsuc, max_ℤ, Bool, false, not, ◌&&◌, ◌||◌, Option, none, some, [], Text, codes, eq_text,
  lower, if◌then◌else◌,
}
use area.Tags.{Tags, get_tag, has_tag, is_true, number_of}
use area.Ha.Node.{Settings}
use area.Standby.State.{Limits}

-- The dictionary, and its section `standby_cluster` if that is a dictionary.
pub record GlobalConfig : Type 0 where
  pub entries : Tags
  pub standby_cluster : Option Tags

-- `ClusterConfig`, where of the version of the last change its truth value is kept.
pub record ClusterConfig : Type 0 where
  pub content : GlobalConfig
  pub modify_version : Bool

-- `cluster and cluster.config`, where a view with a configuration is not empty.
abbrev pub ConfigView : Type 0
ConfigView = Option ClusterConfig

unfoldable pub cluster_has_valid_config : ConfigView → Bool
cluster_has_valid_config none = false
cluster_has_valid_config (some c) = c.modify_version

abbrev content_or : GlobalConfig → ConfigView → GlobalConfig
content_or own none = own
content_or own (some c) = c.content

-- `update`; an empty default counts as none.
unfoldable pub update : GlobalConfig → ConfigView → Option GlobalConfig → GlobalConfig
unfolding cluster_has_valid_config
update own cluster default =
    if cluster_has_valid_config cluster
    then content_or own cluster
    else elim default [ none ↦ own | some d ↦ d ]

abbrev pub empty_config : GlobalConfig
empty_config = record { entries = []; standby_cluster = none }

unfoldable pub from_cluster : GlobalConfig → ConfigView → GlobalConfig
unfolding update cluster_has_valid_config
from_cluster own cluster =
    if not (cluster_has_valid_config cluster) then own else update empty_config cluster none

module _ (c : GlobalConfig) where
  unfoldable pub check_mode : Text → Bool
  check_mode mode = elim (get_tag c.entries mode) [
    | none ↦ false
    | some v ↦ elim v.flag [ none ↦ false | some b ↦ b ]
  ]

  unfoldable pub get_int : Text → ℤ → ℤ
  get_int name default = elim (number_of (get_tag c.entries name)) [ none ↦ default | some n ↦ n ]

  unfoldable pub is_standby_cluster : Bool
  is_standby_cluster = elim c.standby_cluster [
    | none ↦ false
    | some section ↦
        is_true (get_tag section (codes "host"))
        || is_true (get_tag section (codes "port"))
        || is_true (get_tag section (codes "restore_command"))
  ]

  unfoldable pub quorum_is_requested : Bool
  quorum_is_requested = elim (get_tag c.entries (codes "synchronous_mode")) [
    | none ↦ false
    | some v ↦ eq_text (lower v.text) (codes "quorum")
  ]

  unfoldable pub is_synchronous_mode : Bool
  unfolding check_mode quorum_is_requested is_standby_cluster
  is_synchronous_mode =
      (check_mode (codes "synchronous_mode") || quorum_is_requested) && not is_standby_cluster

  unfoldable pub is_synchronous_mode_strict : Bool
  unfolding check_mode
  is_synchronous_mode_strict = check_mode (codes "synchronous_mode_strict")

  unfoldable pub min_synchronous_nodes : ℤ
  unfolding is_synchronous_mode_strict
  min_synchronous_nodes = if is_synchronous_mode_strict then pos 1 else pos 0

  unfoldable pub synchronous_node_count : ℤ
  unfolding get_int min_synchronous_nodes
  synchronous_node_count =
      max_ℤ (get_int (codes "synchronous_node_count") (pos 1)) min_synchronous_nodes

  unfoldable pub maximum_lag_on_failover : ℤ
  unfolding get_int
  maximum_lag_on_failover = get_int (codes "maximum_lag_on_failover") (pos 1048576)

  unfoldable pub maximum_lag_on_syncnode : ℤ
  unfolding get_int
  maximum_lag_on_syncnode = get_int (codes "maximum_lag_on_syncnode") (negsuc 0)

  -- A setting under its name, or else under its old one.
  abbrev renamed : Text → Text → ℤ → ℤ
  renamed name old default =
      if has_tag c.entries name then get_int name default else get_int old default

  unfoldable pub primary_start_timeout : ℤ
  unfolding get_int
  primary_start_timeout =
      renamed (codes "primary_start_timeout") (codes "master_start_timeout") (pos 300)

  unfoldable pub primary_stop_timeout : ℤ
  unfolding get_int
  primary_stop_timeout =
      renamed (codes "primary_stop_timeout") (codes "master_stop_timeout") (pos 0)

  unfoldable pub max_timelines_history : ℤ
  unfolding get_int
  max_timelines_history = get_int (codes "max_timelines_history") (pos 0)

  -- What the HA loop reads of it.
  unfoldable pub settings_of : Settings
  unfolding check_mode
  settings_of = record {
    is_paused = check_mode (codes "pause");
    check_timeline = check_mode (codes "check_timeline");
    is_standby_cluster = is_standby_cluster;
    is_synchronous_mode = is_synchronous_mode;
    is_quorum_commit_mode = quorum_is_requested;
    is_synchronous_mode_strict = is_synchronous_mode_strict;
    failsafe_mode = check_mode (codes "failsafe_mode");
    maximum_lag_on_failover = maximum_lag_on_failover;
  }

  -- What the choice of synchronous standbys reads of it.
  unfoldable pub limits_of : Limits
  limits_of = record {
    is_quorum_commit_mode = quorum_is_requested;
    synchronous_node_count = synchronous_node_count;
    maximum_lag_on_syncnode = maximum_lag_on_syncnode;
  }
