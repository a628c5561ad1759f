-- ===== src/Quorum/Safety.antt =====
-- The resolver's state follows the two places, and every written state passes the check.
use area.Common.{ℤ, ◌≤ℤ◌, ltb_ℤ, ◌≡◌, refl, [], ◌∷◌, ◌++◌, true, false, Text, arith, if◌then◌else◌}
use area.Collections.{CaseInsensitiveSet}
use area.Quorum.Generator.{Run}
use area.Quorum.Transition.{TransitionType, Transition}
use area.Quorum.Resolver.{Resolver, invariants_hold, transition}
use area.Quorum.Steps.{is_restart}
use area.Quorum.Places.{
  Places, publish, publish_all, is_guaranteed, safe_trace, publish_all-emit, safe_trace-emit,
  overlap_guaranteed_mono,
}

bumped : (n least : ℤ) → n ≤ℤ (if ltb_ℤ n least then least else n)
bumped n least = ground arith

module _ (leader_wanted : Text) (min_sync : ℤ) (start : Places) where
  -- What the transitions so far have made of the places.
  abbrev pub reached : Run Resolver Transition → Places
  reached r = publish_all min_sync start r.yielded

  -- `synchronous_standby_names` is what the resolver believes, up to the least replication factor,
  -- and every state written so far passes the check.
  pub record SyncTracks (r : Run Resolver Transition) : Type 0 where
    pub wanted : r.self.leader_wanted ≡ leader_wanted
    pub sync : (reached r).sync ≡ r.self.sync
    pub numsync : r.self.numsync ≤ℤ (reached r).numsync
    pub safe : safe_trace leader_wanted min_sync start r.yielded ≡ true

  -- The /sync key is what the resolver believes, too.
  pub record Tracks (r : Run Resolver Transition) : Type 0 where
    pub sync_tracks : SyncTracks r
    pub leader : (reached r).leader ≡ r.self.leader
    pub quorum : (reached r).quorum ≡ r.self.quorum
    pub voters : (reached r).voters ≡ r.self.voters

  -- Behind a failed check the resolver's own /sync key is not written.
  pub record Broken (leader : Text) (r : Run Resolver Transition) : Type 0 where
    pub sync_tracks : SyncTracks r
    pub led : r.self.leader ≡ leader
    pub broken : invariants_hold r.self ≡ false

  is_guaranteed_of_mirrors :
      (self : Resolver) (p : Places)
      → self.leader_wanted ≡ leader_wanted
      → p.leader ≡ self.leader
      → p.quorum ≡ self.quorum
      → p.voters ≡ self.voters
      → p.sync ≡ self.sync
      → self.numsync ≤ℤ p.numsync
      → invariants_hold self ≡ true
      → is_guaranteed leader_wanted p ≡ true
  unfolding is_guaranteed invariants_hold
  is_guaranteed_of_mirrors self p w l q v s n check =
      rw (l, q, v, s, ← w)
        (overlap_guaranteed_mono self.leader self.quorum self.voters self.numsync p.numsync
          self.sync self.leader_wanted check n)

  -- The quorum transition: the /sync key becomes the resolver's.
  pub quorum-Tracks :
      (r : Run Resolver Transition)
      → SyncTracks r
      → invariants_hold r.self ≡ true
      → Tracks (record r {
        yielded =
            r.yielded
            ++ transition TransitionType.quorum (λ s. s.quorum) (λ s. s.voters) r.self ∷ [];
      })
  unfolding publish is_restart
  quorum-Tracks r h check = record {
    sync_tracks = record {
      wanted = h.wanted;
      sync = rw at_end h.sync;
      numsync = rw at_end h.numsync;
      safe = safe_trace-emit leader_wanted min_sync start r.yielded t h.safe (
          is_guaranteed_of_mirrors r.self (publish min_sync (reached r) t) h.wanted refl refl refl
            h.sync h.numsync check);
    };
    leader = rw at_end;
    quorum = rw at_end;
    voters = rw at_end;
  }
    where
      t : Transition
      t = transition TransitionType.quorum (λ s. s.quorum) (λ s. s.voters) r.self

      at_end : publish_all min_sync start (r.yielded ++ t ∷ []) ≡ record (reached r) {
        leader = r.self.leader;
        quorum = r.self.quorum;
        voters = r.self.voters;
      }
      at_end = publish_all-emit leader_wanted min_sync start r.yielded t

  pub restart-SyncTracks :
      (r : Run Resolver Transition)
      → SyncTracks r
      → SyncTracks (record r {
        yielded =
            r.yielded
            ++ transition TransitionType.restart (λ s. s.quorum) (λ s. s.voters) r.self ∷ [];
      })
  unfolding publish is_restart
  restart-SyncTracks r h = record {
    wanted = h.wanted;
    sync = rw at_end h.sync;
    numsync = rw at_end h.numsync;
    safe = safe_trace-emit leader_wanted min_sync start r.yielded t h.safe refl;
  }
    where
      t : Transition
      t = transition TransitionType.restart (λ s. s.quorum) (λ s. s.voters) r.self

      at_end : publish_all min_sync start (r.yielded ++ t ∷ []) ≡ reached r
      at_end = publish_all-emit leader_wanted min_sync start r.yielded t

  pub sync-Tracks :
      (r : Run Resolver Transition) (numsync : ℤ) (sync : CaseInsensitiveSet)
      → Tracks r
      → invariants_hold (record r.self { numsync = numsync; sync = sync }) ≡ true
      → Tracks (record {
        self = record r.self { numsync = numsync; sync = sync };
        yielded =
            r.yielded
            ++ transition TransitionType.sync
                (λ s. s.numsync)
                (λ s. s.sync)
                (record r.self { numsync = numsync; sync = sync })
              ∷ [];
      })
  unfolding publish is_restart
  sync-Tracks r numsync sync h check = record {
    sync_tracks = record {
      wanted = h.sync_tracks.wanted;
      sync = rw at_end;
      numsync = rw at_end (bumped numsync min_sync);
      safe = safe_trace-emit leader_wanted min_sync start r.yielded t h.sync_tracks.safe (
          is_guaranteed_of_mirrors self (publish min_sync (reached r) t) h.sync_tracks.wanted
            h.leader h.quorum h.voters refl (bumped numsync min_sync) check);
    };
    leader = rw at_end h.leader;
    quorum = rw at_end h.quorum;
    voters = rw at_end h.voters;
  }
    where
      self : Resolver
      self = record r.self { numsync = numsync; sync = sync }

      t : Transition
      t = transition TransitionType.sync (λ s. s.numsync) (λ s. s.sync) self

      at_end : publish_all min_sync start (r.yielded ++ t ∷ []) ≡ record (reached r) {
        numsync = if ltb_ℤ numsync min_sync then min_sync else numsync;
        sync = sync;
      }
      at_end = publish_all-emit leader_wanted min_sync start r.yielded t
