-- ===== src/Ha/Multisync.antt =====
-- `_maybe_enable_synchronous_mode` and `_process_multisync_replication`, with the writes that they make
-- to the /sync key and to `synchronous_standby_names`.
use area.Common.{
  ℤ, pos, not, ◌&&◌, Option, none, some, List, [], ◌∷◌, is_empty, Text, codes, eqb_ℤ, if◌then◌else◌,
}
use area.Collections.{CaseInsensitiveSet, of_values, eq_set, inter, len}
use area.Sync.State.{SyncState, SyncValue, sync_state, from_node, is_empty_state, voters}
use area.Sync.Handler.{Current, SyncHandler}
use area.Ha.Node.{Ha}
use area.Ha.Race.{is_name}

-- The standbys in the /sync key, and the names that PostgreSQL waits for.
pub record Snapshot : Type 0 where
  pub standbys : CaseInsensitiveSet
  pub names : CaseInsensitiveSet

-- The configuration store, the handler and the standbys last written, with a snapshot after each step,
-- the latest first.
pub record Replication (Store World : Type 0) : Type 0 where
  pub store : Store
  pub world : World
  pub standbys : CaseInsensitiveSet
  pub history : List Snapshot

module _ {Version Store World : Type 0} (handler : SyncHandler World)
    (set_sync_state_value : SyncValue → Option Version → Store → Option Version × Store) where
  abbrev pub Rep : Type 0
  Rep = Replication Store World

  abbrev pub observed : Rep → Rep
  observed r = record r {
    history = record { standbys = r.standbys; names = handler.names r.world } ∷ r.history;
  }

  abbrev pub written :
      SyncValue
      → CaseInsensitiveSet
      → Rep
      → Option Version
      → Store
      → Option (SyncState Version) × Rep
  written value standbys r none store = (none, observed (record r { store = store }))
  written value standbys r (some version) store = (
    some (from_node (some version) (some value)),
    observed (record r { store = store; standbys = standbys }),
  )

  -- `write_sync_state`; the store answers with a version, or with none for False.
  unfoldable pub write_sync_state :
      Text → CaseInsensitiveSet → ℤ → Option Version → Rep → Option (SyncState Version) × Rep
  write_sync_state leader standbys quorum version r =
      let value = sync_state (some leader) standbys (some quorum) in
      let (ret, store) = set_sync_state_value value version r.store in
      written value standbys r ret store

  -- No state is a RecursionError, which ends the cycle.
  unfoldable pub inspect : Rep → Option Current × Rep
  inspect r =
      let (current, world) = handler.current_state r.world in
      (current, observed (record r { world = world }))

  unfoldable pub assign : CaseInsensitiveSet → Option ℤ → Rep → Rep
  assign names num r =
      observed (record r { world = handler.set_synchronous_standby_names names num r.world })

  module _ (ha : Ha Version) where
    unfoldable pub maybe_enable_synchronous_mode : Rep → Option (SyncState Version) × Rep
    unfolding write_sync_state
    maybe_enable_synchronous_mode r =
        if is_empty_state ha.cluster.sync
        then write_sync_state ha.node.name [] (pos 0) ha.cluster.sync.version r
        else (some ha.cluster.sync, r)

    -- The last write.
    unfoldable pub assign_status :
        CaseInsensitiveSet → CaseInsensitiveSet → SyncState Version → Rep → Rep
    unfolding write_sync_state
    assign_status allow_promote sync_common sync r =
        if not (is_empty allow_promote) && not (eq_set allow_promote sync_common)
        then (write_sync_state ha.node.name allow_promote (pos 0) sync.version r).1
        else r

    unfoldable pub star : CaseInsensitiveSet
    star = of_values (codes "*" ∷ [])

    -- `synchronous_standby_names` is set, and what it brings is looked at.
    unfoldable pub assign_names :
        CaseInsensitiveSet → CaseInsensitiveSet → CaseInsensitiveSet → SyncState Version → Rep → Rep
    unfolding assign inspect assign_status star
    assign_names picked allow_promote sync_common sync r =
        let picked =
          if ha.settings.is_synchronous_mode_strict && is_empty picked then star else picked in
        let r = assign picked none r in
        if not (is_empty picked) && not (eq_set picked star) && not (eq_set allow_promote picked)
        then (let (current, r) = inspect r in
            elim current [
              | none ↦ r
              | some current ↦ assign_status current.sync_confirmed sync_common sync r
            ])
        else assign_status allow_promote sync_common sync r

    -- The standbys that are to lose their place leave the key first.
    unfoldable pub reduce :
        CaseInsensitiveSet → CaseInsensitiveSet → CaseInsensitiveSet → SyncState Version → Rep → Rep
    unfolding write_sync_state assign_names
    reduce picked allow_promote voters sync r =
        let sync_common = inter voters allow_promote in
        if eq_set sync_common voters
        then assign_names picked allow_promote sync_common sync r
        else (let (sync, r) = write_sync_state ha.node.name sync_common (pos 0) sync.version r in
            elim sync [
              | none ↦ r
              | some sync ↦ assign_names picked allow_promote sync_common sync r
            ])

    unfoldable pub compare : Current → CaseInsensitiveSet → SyncState Version → Rep → Rep
    unfolding reduce
    compare current voters sync r =
        if eq_set current.active voters
          && eq_set voters current.sync
          && eqb_ℤ current.numsync (len current.active)
        then r
        else reduce current.active current.sync_confirmed voters sync r

    -- The key lists what is to be synchronous, but not what is.
    unfoldable pub correct_names : Current → CaseInsensitiveSet → SyncState Version → Rep → Rep
    unfolding write_sync_state compare
    correct_names current names sync r =
        if eq_set current.active names && not (eq_set names current.sync_confirmed)
        then (let (sync, r) =
              write_sync_state ha.node.name current.sync_confirmed (pos 0) sync.version r in
            elim sync [ none ↦ r | some sync ↦ compare current (of_values (voters sync)) sync r ])
        else compare current names sync r

    -- The key names another leader.
    unfoldable pub correct_leader : Current → SyncState Version → Rep → Rep
    unfolding write_sync_state correct_names
    correct_leader current sync r =
        if is_name sync.leader ha.node.name
        then correct_names current (of_values (voters sync)) sync r
        else (let (sync, r) = write_sync_state ha.node.name [] (pos 0) sync.version r in
            elim sync [ none ↦ r | some sync ↦ correct_names current [] sync r ])

    unfoldable pub process_multisync_replication : Rep → Rep
    unfolding maybe_enable_synchronous_mode inspect correct_leader
    process_multisync_replication r =
        let (sync, r) = maybe_enable_synchronous_mode r in
        elim sync [
          | none ↦ r
          | some sync ↦
              let (current, r) = inspect r in
              elim current [ none ↦ r | some current ↦ correct_leader current sync r ]
        ]
