-- ===== src/Sync/State.antt =====
-- `SyncState` and the dictionary that `AbstractDCS.sync_state` builds.
use area.Common.{
  ℤ, pos, Bool, false, not, ◌&&◌, nonzero, Option, none, some, List, [], ◌∷◌, ◌++◌, some_of,
  is_empty, Text, eq_text, lower, if◌then◌else◌,
}
use area.Sync.Names.{join, str_to_list, sorted}

-- The dictionary in the key, with values of the types that are written there.
pub record SyncValue : Type 0 where
  pub leader : Option Text
  pub sync_standby : Option Text
  pub quorum : Option ℤ

unfoldable pub sync_state : Option Text → List Text → Option ℤ → SyncValue
sync_state leader sync_standby quorum = record {
  leader = leader;
  sync_standby = if is_empty sync_standby then none else some (join (sorted sync_standby));
  quorum = quorum;
}

pub record SyncState (Version : Type 0) : Type 0 where
  pub version : Option Version
  pub leader : Option Text
  pub sync_standby : Option Text
  pub quorum : ℤ

-- `value or ''`
unfoldable pub or_empty : Option Text → Text
or_empty none = []
or_empty (some s) = s

-- The truth value of an optional string.
unfoldable pub is_set : Option Text → Bool
is_set none = false
is_set (some s) = not (is_empty s)

-- `int(quorum) if leader and quorum else 0`
abbrev read_quorum : Option Text → Option ℤ → ℤ
read_quorum leader none = pos 0
read_quorum leader (some q) = if is_set leader && nonzero q then q else pos 0

module _ {Version : Type 0} where
  unfoldable pub empty : Option Version → SyncState Version
  empty version = record { version = version; leader = none; sync_standby = none; quorum = pos 0 }

  -- The value is none where the key is missing or does not hold a dictionary.
  unfoldable pub from_node : Option Version → Option SyncValue → SyncState Version
  unfolding is_set
  from_node version none = empty version
  from_node version (some value) = record {
    version = version;
    leader = value.leader;
    sync_standby = value.sync_standby;
    quorum = read_quorum value.leader value.quorum;
  }

  unfoldable pub is_empty_state : SyncState Version → Bool
  is_empty_state s = not (is_set s.leader)

  unfoldable pub voters : SyncState Version → List Text
  voters s =
      if not (is_empty_state s) && is_set s.sync_standby
      then str_to_list (or_empty s.sync_standby)
      else []

  unfoldable pub members : SyncState Version → List Text
  members s = if is_set s.leader then or_empty s.leader ∷ voters s else []

  unfoldable pub matches : Option Text → Bool → SyncState Version → Bool
  matches name check_leader s =
      if is_set name && not (is_empty_state s)
      then (let search_str =
            or_empty s.sync_standby ++ (if check_leader then b',' ∷ or_empty s.leader else []) in
          some_of (eq_text (lower (or_empty name))) (str_to_list (lower search_str)))
      else false

  unfoldable pub leader_matches : Option Text → SyncState Version → Bool
  leader_matches name s =
      is_set name
      && not (is_empty_state s)
      && eq_text (lower (or_empty name)) (lower (or_empty s.leader))
