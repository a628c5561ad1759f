-- ===== src/Cluster/Member.antt =====
-- `Member` and `Leader`: what is known of a node from its key. Of the dictionary in the key, the
-- values that the program reads here are kept.
use area.Common.{ℤ, Bool, ◌&&◌, Option, none, some, [], Text, codes, eq_text}
use area.Sync.State.{is_set}
use area.Tags
use area.Tags.{Tags}

pub record Member : Type 0 where
  pub name : Text
  pub tags : Tags
  pub api_url : Option Text
  pub conn_url : Option Text
  pub member_state : Option Text
  pub lsn : Option ℤ

-- A node of which only its name and its REST API are known.
unfoldable pub remote_member : Text → Text → Member
remote_member name url = record {
  name = name;
  tags = [];
  api_url = some url;
  conn_url = none;
  member_state = none;
  lsn = none;
}

unfoldable pub clonefrom : Member → Bool
clonefrom m = Tags.clonefrom m.tags && is_set m.conn_url

-- `state`
unfoldable pub state : Member → Text
state m = elim m.member_state [ none ↦ codes "unknown" | some s ↦ s ]

unfoldable pub is_running : Member → Bool
is_running m = eq_text (state m) (codes "running")

pub record Leader (Version : Type 0) : Type 0 where
  pub version : Version
  pub session : Text
  pub member : Member
  pub timeline : Option ℤ
