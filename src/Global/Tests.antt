-- ===== src/Global/Tests.antt =====
-- A configuration with quorum commit, and one of a standby cluster.
use area.Common.{◌≡◌, true, none, some, [], ◌∷◌, codes, lower, refl, eq_text}
use area.Tags.{get_tag}
use area.Global.Config.{is_synchronous_mode, GlobalConfig}

abbrev with_quorum : GlobalConfig
with_quorum = record {
  entries =
      record {
        name = codes "synchronous_mode";
        value = some (record { truth = true; number = none; flag = none; text = codes "Quorum" });
      }
      ∷ [];
  standby_cluster = none;
}

with_quorum_is_synchronous : is_synchronous_mode with_quorum ≡ true
unfolding is_synchronous_mode get_tag eq_text lower
with_quorum_is_synchronous = refl
