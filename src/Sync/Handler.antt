-- ===== src/Sync/Handler.antt =====
-- What the HA loop uses of `SyncHandler`, postgresql/sync.py, and of the PostgreSQL instance behind it.
use area.Common.{ℤ, ◌≡◌, Bool, true, Option, none, some}
use area.Collections.{CaseInsensitiveSet}
use area.Collections.Within.{IsWithin}

-- `_SyncState` without its `sync_type`.
pub record Current : Type 0 where
  pub numsync : ℤ
  pub sync : CaseInsensitiveSet
  pub sync_confirmed : CaseInsensitiveSet
  pub active : CaseInsensitiveSet

-- The operations on a handler, with no state where it raises a RecursionError, and the names that
-- PostgreSQL waits for. A confirmed standby is a candidate and one of the names; the candidates can be
-- waited for at once; to look at the state leaves the names; and names that can be waited for at once
-- are in force when they are set.
pub record SyncHandler (World : Type 0) : Type 0 where
  pub names : World → CaseInsensitiveSet
  pub current_state : World → Option Current × World
  pub set_synchronous_standby_names : CaseInsensitiveSet → Option ℤ → World → World
  pub can_set : CaseInsensitiveSet → Bool
  pub confirmed-active :
      (w : World) (c : Current) → (current_state w).0 ≡ some c → IsWithin c.sync_confirmed c.active
  pub confirmed-names :
      (w : World) (c : Current)
      → (current_state w).0 ≡ some c
      → IsWithin c.sync_confirmed (names (current_state w).1)
  pub can_set-active :
      (w : World) (c : Current) → (current_state w).0 ≡ some c → can_set c.active ≡ true
  pub current_state-names : (w : World) → IsWithin (names w) (names (current_state w).1)
  pub set-names :
      (s : CaseInsensitiveSet) (w : World)
      → can_set s ≡ true
      → IsWithin s (names (set_synchronous_standby_names s none w))
