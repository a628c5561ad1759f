-- ===== src/Standby/State.antt =====
-- `SyncHandler`: which connections are known to be synchronous, and `current_state`.
use area.Common.{
  ℕ, ℤ, pos, ◌-ℤ◌, ltb_ℤ, leb_ℤ, Bool, false, not, ◌&&◌, ◌||◌, Option, none, some, List, [], ◌∷◌,
  ◌++◌, keep, Text, codes, eq_text, if◌then◌else◌,
}
use area.Collections.{CaseInsensitiveSet, contains, add, len}
use area.Dictionary.{CaseInsensitiveDict, get_item, set_item}
use area.Sync.State.{SyncState, matches}
use area.Sync.Handler.{Current}
use area.Cluster.View.{Cluster}
use area.Standby.Parse.{Ssn, empty_ssn, parse_sync_standby_names}
use area.Standby.Replicas.{Postgresql, Replica, is_some, replica_list, max_lsn}

pub record Handler : Type 0 where
  pub synchronous_standby_names : Text
  pub ssn_data : Ssn
  pub primary_flush_lsn : ℤ
  pub ready_replicas : CaseInsensitiveDict ℤ

-- The settings of the global configuration that are read.
pub record Limits : Type 0 where
  pub is_quorum_commit_mode : Bool
  pub synchronous_node_count : ℤ
  pub maximum_lag_on_syncnode : ℤ

-- A value that cannot be parsed counts as the empty one.
unfoldable pub parsed : Text → Ssn
unfolding empty_ssn
parsed value = elim (parse_sync_standby_names value) [ none ↦ empty_ssn | some ssn ↦ ssn ]

-- `_handle_synchronous_standby_names_change`
unfoldable pub handle_change : Postgresql → Handler → Handler
unfolding parsed
handle_change pg h =
    if eq_text pg.synchronous_standby_names h.synchronous_standby_names
    then h
    else (let ssn = parsed pg.synchronous_standby_names in
        record {
          synchronous_standby_names = pg.synchronous_standby_names;
          ssn_data = ssn;
          primary_flush_lsn = pg.last_operation;
          ready_replicas = keep (λ e. contains e.key ssn.members) h.ready_replicas;
        })

module _ {Version : Type 0} (limits : Limits) (pg : Postgresql) (sync : SyncState Version) where
  -- What shows that a connection is synchronous.
  unfoldable pub is_caught_up : Handler → Replica → Bool
  is_caught_up h r =
      if limits.is_quorum_commit_mode
      then leb_ℤ h.primary_flush_lsn r.lsn
        && (eq_text r.sync_state (codes "quorum")
            || (not pg.supports_quorum_commit
                && (eq_text r.sync_state (codes "sync")
                    || eq_text r.sync_state (codes "potential"))))
      else matches (some r.application_name) false sync
        || (eq_text r.sync_state (codes "sync") && leb_ℤ h.primary_flush_lsn r.lsn)

  unfoldable pub ready_one : Handler → Replica → Handler
  unfolding is_caught_up
  ready_one h r =
      if not (is_some (get_item h.ready_replicas r.application_name))
        && contains r.application_name h.ssn_data.members
        && is_caught_up h r
      then record h { ready_replicas = set_item h.ready_replicas r.application_name r.pid }
      else h

  -- `_process_replica_readiness`
  unfoldable pub process_replica_readiness : Handler → List Replica → Handler
  unfolding ready_one
  process_replica_readiness h [] = h
  process_replica_readiness h (r ∷ rs) = process_replica_readiness (ready_one h r) rs

module _ (limits : Limits) (node_count max_position : ℤ) (ready : CaseInsensitiveDict ℤ) where
  unfoldable pub is_near : Replica → Bool
  is_near r =
      leb_ℤ limits.maximum_lag_on_syncnode (pos 0)
      || leb_ℤ (max_position -ℤ r.lsn) limits.maximum_lag_on_syncnode

  -- One connection: the active and the confirmed ones with it, and whether the loop ends.
  unfoldable pub choose_one :
      Replica
      → CaseInsensitiveSet
      → CaseInsensitiveSet
      → (CaseInsensitiveSet × CaseInsensitiveSet) × Bool
  unfolding is_near
  choose_one r active confirmed =
      let is_ready = is_some (get_item ready r.application_name) in
      let with_r = add confirmed r.application_name in
      let active' = add active r.application_name in
      if not (is_near r)
      then ((active, confirmed), false)
      else if limits.is_quorum_commit_mode
      then if not r.nofailover || ltb_ℤ (len active) node_count
        then ((active', if is_ready then with_r else confirmed), false)
        else ((active, confirmed), false)
      else (
        (active', if eq_text r.sync_state (codes "sync") && is_ready then with_r else confirmed),
        leb_ℤ node_count (len active'),
      )

  unfoldable pub choose :
      List Replica
      → CaseInsensitiveSet
      → CaseInsensitiveSet
      → CaseInsensitiveSet × CaseInsensitiveSet
  unfolding choose_one
  choose [] active confirmed = (active, confirmed)
  choose (r ∷ rs) active confirmed =
      let ((active', confirmed'), ends) = choose_one r active confirmed in
      let rest = choose rs active' confirmed' in if ends then (active', confirmed') else rest

-- `sorted(replica_list, key=lambda x: x.nofailover)`
unfoldable pub promotable_first : List Replica → List Replica
promotable_first rs = keep (λ r. not r.nofailover) rs ++ keep (λ r. r.nofailover) rs

-- `current_state`, where `pg` answers before and `pg'` after the cached values are dropped; none is
-- the RecursionError of `_should_cascade`.
unfoldable pub current_state :
    {Version : Type 0}
    → ℕ
    → Limits
    → Postgresql
    → Postgresql
    → Cluster Version
    → Handler
    → Option (Current × Handler)
unfolding handle_change replica_list process_replica_readiness choose promotable_first max_lsn
current_state frames limits pg pg' cluster h =
    let h = handle_change pg h in
    elim (replica_list frames pg' cluster.members) [
      | none ↦ none
      | some rs ↦
          let h = process_replica_readiness limits pg' cluster.sync h rs in
          let node_count =
            if pg'.supports_multiple_sync then limits.synchronous_node_count else pos 1 in
          let (active, confirmed) =
            choose limits node_count (max_lsn pg' rs) h.ready_replicas (promotable_first rs) []
              [] in
          some (
            record {
              numsync = h.ssn_data.num;
              sync = if h.ssn_data.has_star then [] else h.ssn_data.members;
              sync_confirmed = confirmed;
              active = active;
            },
            h,
          )
    ]
