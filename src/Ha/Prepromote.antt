-- ===== src/Ha/Prepromote.antt =====
-- `process_sync_replication_prepromote` and `disable_synchronous_replication`.
use area.Common.{
  ℤ, pos, ◌+ℤ◌, ◌-ℤ◌, ltb_ℤ, Bool, true, false, not, ◌&&◌, ◌||◌, Option, none, some, [],
  if◌then◌else◌,
}
use area.Collections.{CaseInsensitiveSet, contains, of_values, discard, len}
use area.Sync.State.{SyncState, SyncValue, is_empty_state, members}
use area.Sync.Handler.{SyncHandler}
use area.Ha.Node.{Ha, is_quorum_commit_mode, quorum_commit_mode_is_active}
use area.Ha.Multisync.{Replication, observed, write_sync_state, assign}

-- What the new leader sets: the other members of the /sync key, and how many of them have to confirm.
-- `min_sync` is the least number of synchronous nodes of the configuration.
unfoldable pub names_before_promote : {Version : Type 0} → Ha Version → ℤ → CaseInsensitiveSet × ℤ
names_before_promote ha min_sync =
    if quorum_commit_mode_is_active ha
    then (let sync = of_values (members ha.cluster.sync) in
        let numsync = len sync -ℤ ha.cluster.sync.quorum -ℤ pos 1 in
        if not (contains ha.node.name sync)
        then (sync, numsync +ℤ pos 1)
        else (discard sync ha.node.name, numsync))
    else ([], min_sync)

module _ {Version Store World : Type 0} (handler : SyncHandler World)
    (set_sync_state_value : SyncValue → Option Version → Store → Option Version × Store)
    (delete_sync_state : Option Version → Store → Bool × Store)
    (set_configured_names : World → World) (ha : Ha Version) where
  -- The names of the user's configuration come last, whatever was done before.
  unfoldable pub disable_synchronous_replication : Replication Store World → Replication Store World
  unfolding assign
  disable_synchronous_replication r =
      if is_empty_state ha.cluster.sync
      then configure r
      else configure (deleted r (delete_sync_state ha.cluster.sync.version r.store))
    where
      configure : Replication Store World → Replication Store World
      configure r =
          observed handler set_sync_state_value (record r { world = set_configured_names r.world })

      deleted : Replication Store World → Bool × Store → Replication Store World
      deleted r (false, store) = record r { store = store }
      deleted r (true, store) =
          assign handler set_sync_state_value [] none
            (observed handler set_sync_state_value (record r { store = store; standbys = [] }))

  unfoldable pub process_sync_replication_prepromote :
      ℤ → Replication Store World → Bool × Replication Store World
  unfolding disable_synchronous_replication names_before_promote write_sync_state assign
  process_sync_replication_prepromote min_sync r =
      if not ha.settings.is_synchronous_mode
      then (true, disable_synchronous_replication r)
      else (let (sync, numsync) = names_before_promote ha min_sync in
          if not (is_quorum_commit_mode ha)
            || (not ha.node.supports_multiple_sync && ltb_ℤ (pos 1) numsync)
          then reset (
              write_sync_state handler set_sync_state_value ha.node.name [] (pos 0)
                ha.cluster.sync.version r)
          else (true, assign handler set_sync_state_value sync (some numsync) r))
    where
      reset : Option (SyncState Version) × Replication Store World → Bool × Replication Store World
      reset (none, r) = (false, r)
      reset (some sync, r) = (true, assign handler set_sync_state_value [] (some min_sync) r)
