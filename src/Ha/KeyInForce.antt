-- ===== src/Ha/KeyInForce.antt =====
-- The /sync key, with the handler of postgresql/sync.py.
use area.Common.{ℕ, ◌≡◌, true, false, Option, some, List, every, Text}
use area.Collections.{of_values}
use area.Collections.Within.{IsWithin}
use area.Sync.State.{SyncValue, voters}
use area.Standby.Format.{Writing}
use area.Standby.Replicas.{Replica, replica_list}
use area.Standby.State.{Limits}
use area.Standby.InForce.{is_usable}
use area.Standby.Implements.{Look, at, Running, handler}
use area.Ha.Node.{Ha}
use area.Ha.Multisync.{Replication, process_multisync_replication}
use area.Ha.KeySteps.{IsKept}
use area.Ha.KeyWithin.{process_multisync_replication-IsKept}

module _ {Version Store : Type 0} (frames : ℕ) (limits : Limits) (writing : Writing)
    (seen : ℕ → Look Version)
    (set_sync_state_value : SyncValue → Option Version → Store → Option Version × Store)
    (ha : Ha Version) where
  -- Without quorum commit, let the view show the standbys in the key, let these be among the names that
  -- PostgreSQL waits for, and let the names of all replicas be read back and none of them be `*`; then
  -- the standbys in the key are among the names after every step of `_process_multisync_replication`,
  -- whatever the store and PostgreSQL answer.
  pub process_multisync_replication-InForce :
      (q : limits.is_quorum_commit_mode ≡ false) (p : writing.is_quorum_commit_mode ≡ false)
      (usable : (n : ℕ) (value : Text) (rs : List Replica)
        → replica_list frames
            (at frames limits writing seen value (seen n).after)
            (seen n).cluster.members
          ≡ some rs
        → every (λ r. is_usable r.application_name) rs ≡ true)
      (r : Replication Store (Running frames limits writing seen q p usable))
      → IsKept (handler frames limits writing seen q p usable) set_sync_state_value r
      → IsWithin r.standbys (of_values (voters ha.cluster.sync))
      → IsKept (handler frames limits writing seen q p usable) set_sync_state_value (
          process_multisync_replication
            (handler frames limits writing seen q p usable)
            set_sync_state_value
            ha
            r)
  process_multisync_replication-InForce q p usable r =
      process_multisync_replication-IsKept (handler frames limits writing seen q p usable)
        set_sync_state_value ha r
