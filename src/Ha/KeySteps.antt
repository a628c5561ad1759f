-- ===== src/Ha/KeySteps.antt =====
-- The steps of a replication that keep the standbys in the /sync key among the names in force.
use area.Common.{
  ℤ, ◌≡◌, refl, Bool, true, false, Option, none, some, List, [], ◌∷◌, Text, if◌then◌else◌,
}
use area.Collections.{CaseInsensitiveSet, contains}
use area.Sync.State.{SyncState, SyncValue}
use area.Sync.Handler.{Current, SyncHandler}
use area.Ha.Multisync.{Snapshot, Replication, written, write_sync_state, inspect, assign}
use area.Collections.Within.{IsWithin}

-- After every step, the standbys in the key are among the names.
abbrev pub IsSafe : List Snapshot → Type 0
IsSafe [] = Unit
IsSafe (s ∷ history) = IsWithin s.standbys s.names × IsSafe history

module _ {Version Store World : Type 0} (handler : SyncHandler World)
    (set_sync_state_value : SyncValue → Option Version → Store → Option Version × Store) where
  abbrev pub Rep : Type 0
  Rep = Replication Store World

  -- The standbys in the key are among the names, now and after every step so far.
  abbrev pub IsKept : Rep → Type 0
  IsKept r = IsWithin r.standbys (handler.names r.world) × IsSafe r.history

  -- A write by a handler that keeps the invariant, and what is in the key then.
  abbrev pub Wrote : CaseInsensitiveSet → Rep → Option (SyncState Version) × Rep → Type 0
  Wrote standbys r (none, r') = IsKept r'
  Wrote standbys r (some sync, r') = IsKept r' × (r'.standbys ≡ standbys) × (r'.world ≡ r.world)

  written-Wrote :
      (value : SyncValue) (standbys : CaseInsensitiveSet) (r : Rep) (ret : Option Version)
      (store : Store)
      → IsKept r
      → IsWithin standbys (handler.names r.world)
      → Wrote standbys r (written handler set_sync_state_value value standbys r ret store)
  written-Wrote value standbys r none store (h, s) k = (h, (h, s))
  written-Wrote value standbys r (some v) store (h, s) k = ((k, (k, s)), refl, refl)

  pub write-Wrote :
      (leader : Text) (standbys : CaseInsensitiveSet) (quorum : ℤ) (version : Option Version)
      (r : Rep)
      → IsKept r
      → IsWithin standbys (handler.names r.world)
      → Wrote standbys r
          (write_sync_state handler set_sync_state_value leader standbys quorum version r)
  unfolding write_sync_state
  write-Wrote leader standbys quorum version r h k = written-Wrote _ standbys r _ _ h k

  pub Wrote-IsKept :
      (standbys : CaseInsensitiveSet) (r : Rep) (w : Option (SyncState Version) × Rep)
      → Wrote standbys r w
      → IsKept w.1
  Wrote-IsKept standbys r (none, r') h = h
  Wrote-IsKept standbys r (some sync, r') h = h.0

  pub if_IsKept : (b : Bool) (r r' : Rep) → IsKept r → IsKept r' → IsKept (if b then r else r')
  if_IsKept true r r' h k = h
  if_IsKept false r r' h k = k

  -- What follows a write.
  pub then-IsKept :
      (standbys : CaseInsensitiveSet) (r : Rep) (w : Option (SyncState Version) × Rep)
      (k : SyncState Version → Rep → Rep)
      → Wrote standbys r w
      → ((sync : SyncState Version) (r' : Rep)
          → IsKept r'
          → r'.standbys ≡ standbys
          → r'.world ≡ r.world
          → IsKept (k sync r'))
      → IsKept (elim w.0 [ none ↦ w.1 | some sync ↦ k sync w.1 ])
  then-IsKept standbys r (none, r') k h f = h
  then-IsKept standbys r (some sync, r') k (h, e, u) f = f sync r' h e u

  pub inspect-IsKept : (r : Rep) → IsKept r → IsKept (inspect handler set_sync_state_value r).1
  unfolding inspect
  inspect-IsKept r (h, s) =
      let k = λ (x : Text) (e : contains x r.standbys ≡ true).
        handler.current_state-names r.world x (h x e) in
      (k, (k, s))

  -- What follows a look at the state.
  pub told-IsKept :
      (o : Option Current) (r : Rep) (k : Current → Rep)
      → IsKept r
      → ((c : Current) → o ≡ some c → IsKept (k c))
      → IsKept (elim o [ none ↦ r | some c ↦ k c ])
  told-IsKept none r k h f = h
  told-IsKept (some c) r k h f = f c refl

  pub assign-IsKept :
      (names : CaseInsensitiveSet) (r : Rep)
      → IsKept r
      → IsWithin r.standbys
          (handler.names (handler.set_synchronous_standby_names names none r.world))
      → IsKept (assign handler set_sync_state_value names none r)
  unfolding assign
  assign-IsKept names r (h, s) k = (k, (k, s))
