-- ===== src/Quorum/SafeUpdates.antt =====
-- `quorum_update` and `sync_update` keep the resolver in step with the two places.
use area.Common.{
  ◌≡◌, ℤ, pos, ltb_ℤ, leb_ℤ, refl, Bool, true, false, ◌&&◌, Option, Text, Bool-cases, inl, inr,
}
use area.Collections.{CaseInsensitiveSet, len}
use area.Quorum.Generator.{Run, raise, gets, modify, emit, pure, ◌>>=◌}
use area.Quorum.Generator.Keeps.{Outcome, Keeps, Outcome-weaken}
use area.Quorum.Transition.{Transition}
use area.Quorum.Resolver.{
  Resolver, invariants_hold, check_invariants, publish_quorum, quorum_update, sync_update, adjust,
  is_unchanged, nonempty,
}
use area.Quorum.Places.{Places}
use area.Quorum.Safety.{SyncTracks, Tracks, Broken, quorum-Tracks, restart-SyncTracks, sync-Tracks}

module _ (leader_wanted : Text) (min_sync : ℤ) (start : Places) where
  abbrev pub InStep : Run Resolver Transition → Type 0
  InStep = Tracks leader_wanted min_sync start

  abbrev pub Anything : Run Resolver Transition → Type 0
  Anything r = Unit

  pub sync_update-Tracks :
      (numsync : ℤ) (sync : CaseInsensitiveSet) → Keeps InStep Anything (sync_update numsync sync)
  unfolding sync_update ◌>>=◌ raise modify check_invariants emit
  sync_update-Tracks numsync sync = record {
    at = λ r h. elim (Bool-cases (ltb_ℤ numsync (pos 0))) [
      | inl e ↦ rw e tt
      | inr e ↦ rw e (elim (Bool-cases (ltb_ℤ (len sync) numsync)) [
        | inl f ↦ rw f tt
        | inr f ↦
            rw f
              (elim (Bool-cases
                (invariants_hold (record r.self { numsync = numsync; sync = sync }))) [
                  | inl g ↦ rw g (sync-Tracks leader_wanted min_sync start r numsync sync h g)
                  | inr g ↦ rw g tt
                ])
      ])
    ];
  }

  -- The writes of `quorum_update` after its guards.
  abbrev written : Run Resolver Transition → Text → ℤ → CaseInsensitiveSet → Run Resolver Transition
  written r leader quorum voters = record r {
    self = record r.self { leader = leader; quorum = quorum; voters = voters };
  }

  publish_checked :
      (leader : Text) (quorum : ℤ) (voters : CaseInsensitiveSet) (r : Run Resolver Transition)
      → SyncTracks leader_wanted min_sync start r
      → Outcome InStep
          (Broken leader_wanted min_sync start leader)
          (publish_quorum false leader quorum voters r).0
          (publish_quorum false leader quorum voters r).1
  unfolding publish_quorum ◌>>=◌ modify check_invariants emit
  publish_checked leader quorum voters r h =
      elim (Bool-cases (invariants_hold (written r leader quorum voters).self)) [
        | inl g ↦
            rw g
              (quorum-Tracks leader_wanted min_sync start (written r leader quorum voters) same g)
        | inr g ↦ rw g (record { sync_tracks = same; led = refl; broken = g })
      ]
    where
      same : SyncTracks leader_wanted min_sync start (written r leader quorum voters)
      same = record { wanted = h.wanted; sync = h.sync; numsync = h.numsync; safe = h.safe }

  pub publish_quorum-Outcome :
      (unchanged : Bool) (leader : Text) (quorum : ℤ) (voters : CaseInsensitiveSet)
      (r : Run Resolver Transition)
      → SyncTracks leader_wanted min_sync start r
      → Outcome InStep
          (Broken leader_wanted min_sync start leader)
          (publish_quorum unchanged leader quorum voters r).0
          (publish_quorum unchanged leader quorum voters r).1
  unfolding publish_quorum ◌>>=◌ modify check_invariants emit
  publish_quorum-Outcome false leader quorum voters r h = publish_checked leader quorum voters r h
  publish_quorum-Outcome true leader quorum voters r h = publish_checked leader quorum voters _ (
      restart-SyncTracks leader_wanted min_sync start led
        (record { wanted = h.wanted; sync = h.sync; numsync = h.numsync; safe = h.safe }))
    where
      led : Run Resolver Transition
      led = record r { self = record r.self { leader = leader } }

  -- What holds behind `quorum_update`: it is skipped, its guards raise, or it writes and checks.
  module _ (E : Run Resolver Transition → Type 0) (quorum : ℤ) (voters : CaseInsensitiveSet)
      (leader : Option Text) (adjust_quorum : Bool) (r : Run Resolver Transition) where
    abbrev new : Text × ℤ × CaseInsensitiveSet
    new = adjust r.self quorum voters leader adjust_quorum

    abbrev unchanged : Bool
    unchanged = is_unchanged r.self new.0 new.1 new.2

    pub quorum_update-Outcome :
        SyncTracks leader_wanted min_sync start r
        → E r
        → ((unchanged && nonempty r.self.voters) ≡ true → InStep r)
        → ((s : Run Resolver Transition) → Broken leader_wanted min_sync start new.0 s → E s)
        → Outcome InStep E
            (quorum_update quorum voters leader adjust_quorum r).0
            (quorum_update quorum voters leader adjust_quorum r).1
    unfolding quorum_update ◌>>=◌ raise gets pure
    quorum_update-Outcome h raised skipped broken = elim (Bool-cases (ltb_ℤ quorum (pos 0))) [
      | inl e ↦ rw e raised
      | inr e ↦ rw e (elim (Bool-cases (ltb_ℤ (pos 0) quorum && leb_ℤ (len voters) quorum)) [
        | inl f ↦ rw f raised
        | inr f ↦ rw f (elim (Bool-cases (unchanged && nonempty r.self.voters)) [
          | inl g ↦ rw g (skipped g)
          | inr g ↦ rw g (
              Outcome-weaken InStep (Broken leader_wanted min_sync start new.0) E
                (publish_quorum unchanged new.0 new.1 new.2 r).0
                (publish_quorum unchanged new.0 new.1 new.2 r).1
                (publish_quorum-Outcome unchanged new.0 new.1 new.2 r h) broken)
        ])
      ])
    ]

  pub quorum_update-Tracks :
      (quorum : ℤ) (voters : CaseInsensitiveSet) (leader : Option Text) (adjust_quorum : Bool)
      → Keeps InStep Anything (quorum_update quorum voters leader adjust_quorum)
  quorum_update-Tracks quorum voters leader adjust_quorum = record {
    at = λ r h.
        quorum_update-Outcome Anything quorum voters leader adjust_quorum r h.sync_tracks tt
          (λ _. h) (λ s _. tt);
  }
