-- ===== src/Quorum/SafeFailover.antt =====
-- The `try` block of `_generate_transitions`, and the whole iteration.
use area.Common.{
  ℤ, pos, ◌+ℤ◌, ◌-ℤ◌, ◌≤ℤ◌, ltb_ℤ, eqb_ℤ, max_ℤ, ◌≡◌, ◌⊎◌, sym, ◌∙◌, true, ◌&&◌, some, none, Text,
  is_empty, arith, Bool-cases, inl, inr,
}
use area.Collections.{CaseInsensitiveSet, len, of_values, eq_set}
use area.Quorum.Generator.{Run, Gen, raise, modify, emit, catch, ◌>>=◌}
use area.Quorum.Generator.Keeps.{
  Outcome, Keeps, Keeps-catch, Keeps-pure, Keeps-if, Keeps-bind, Keeps-read, read-Outcome,
  bind-Outcome, when-Outcome, keeps_rules,
}
use area.Quorum.Transition.{Transition}
use area.Quorum.Resolver.{
  Resolver, invariants_hold, check_invariants, quorum_update, sync_update, adjust, is_unchanged,
  nonempty,
}
use area.Quorum.Steps.{
  failover_voters, handle_failover, handle_leader, reset_quorum, generate_transitions,
}
use area.Quorum.Guarantee.{failover_guaranteed, reset_guaranteed}
use area.Quorum.Places.{Places}
use area.Quorum.Safety.{Broken, sync-Tracks}
use area.Quorum.SafeUpdates.{InStep, Anything, quorum_update-Outcome, quorum_update-Tracks}
use area.Quorum.SafeSteps.{generate_steady-Safe}

module _ (leader_wanted : Text) (min_sync : ℤ) (start : Places) where
  -- Behind a `QuorumError` in the `try` block.
  abbrev Recoverable : Run Resolver Transition → Type 0
  Recoverable r =
      InStep leader_wanted min_sync start r ⊎ Broken leader_wanted min_sync start leader_wanted r

  abbrev Guarded : {A : Type 0} → Gen Resolver Transition A → Type 0
  Guarded m = Keeps (InStep leader_wanted min_sync start) Recoverable m

  check-Guarded : Guarded check_invariants
  unfolding check_invariants
  check-Guarded = record {
    at =
        λ r h. elim (Bool-cases (invariants_hold r.self)) [ inl e ↦ rw e h | inr e ↦ rw e (inl h) ];
  }

  -- The first update of a failover passes its check.
  failover_sync-Outcome :
      (r : Run Resolver Transition)
      → InStep leader_wanted min_sync start r
      → Outcome
          (InStep leader_wanted min_sync start)
          Recoverable
          (sync_update
            (len (failover_voters r.self) -ℤ r.self.quorum)
            (of_values (failover_voters r.self))
            r).0
          (sync_update
            (len (failover_voters r.self) -ℤ r.self.quorum)
            (of_values (failover_voters r.self))
            r).1
  unfolding sync_update ◌>>=◌ raise modify check_invariants emit
  failover_sync-Outcome r h = elim (Bool-cases (ltb_ℤ numsync (pos 0))) [
    | inl e ↦ rw e (inl h)
    | inr e ↦ rw e (elim (Bool-cases (ltb_ℤ (len sync) numsync)) [
      | inl f ↦ rw f (inl h)
      | inr f ↦
          rw (f, failover_guaranteed r.self)
            (sync-Tracks leader_wanted min_sync start r numsync sync h (failover_guaranteed r.self))
    ])
  ]
    where
      numsync : ℤ
      numsync = len (failover_voters r.self) -ℤ r.self.quorum

      sync : CaseInsensitiveSet
      sync = of_values (failover_voters r.self)

  Recoverable-of_Broken :
      (r s : Run Resolver Transition)
      → InStep leader_wanted min_sync start r
      → Broken leader_wanted min_sync start r.self.leader_wanted s
      → Recoverable s
  Recoverable-of_Broken r s h b = inr (record {
    sync_tracks = b.sync_tracks;
    led = b.led ∙ h.sync_tracks.wanted;
    broken = b.broken;
  })

  failover_quorum-Outcome :
      (voters : CaseInsensitiveSet) (r : Run Resolver Transition)
      → InStep leader_wanted min_sync start r
      → Outcome
          (InStep leader_wanted min_sync start)
          Recoverable
          (quorum_update r.self.quorum voters (some r.self.leader_wanted) true r).0
          (quorum_update r.self.quorum voters (some r.self.leader_wanted) true r).1
  unfolding adjust
  failover_quorum-Outcome voters r h =
      quorum_update-Outcome leader_wanted min_sync start Recoverable r.self.quorum voters
        (some r.self.leader_wanted) true r h.sync_tracks (inl h) (λ _. h)
        (λ s. Recoverable-of_Broken r s h)

  handle_failover-Guarded : Guarded handle_failover
  unfolding handle_failover
  handle_failover-Guarded = Keeps-read _ λ r h.
      bind-Outcome _ _ r (when-Outcome _ Recoverable _ _ r h (λ _. failover_sync-Outcome r h)) λ _.
        Keeps-read _
          λ s k. bind-Outcome _ _ s (failover_quorum-Outcome _ s k) (λ _. search keeps_rules)

  handle_leader-Guarded : Guarded handle_leader
  unfolding handle_leader
  handle_leader-Guarded = search (keeps_rules, check-Guarded, handle_failover-Guarded)

  -- A reset of the quorum behind a failed check is not skipped.
  reset-Broken-Outcome :
      (r : Run Resolver Transition)
      → Broken leader_wanted min_sync start leader_wanted r
      → Outcome
          (InStep leader_wanted min_sync start)
          (Anything leader_wanted min_sync start)
          (quorum_update (len r.self.sync -ℤ r.self.numsync) r.self.sync none true r).0
          (quorum_update (len r.self.sync -ℤ r.self.numsync) r.self.sync none true r).1
  unfolding adjust is_unchanged
  reset-Broken-Outcome r h =
      quorum_update-Outcome leader_wanted min_sync start (Anything leader_wanted min_sync start)
        (len r.self.sync -ℤ r.self.numsync) r.self.sync none true r h.sync_tracks tt
        (λ skipped. absurd (
          ground (
            arith,
            reset_guaranteed r.self (max_ℤ (r.self.numsync -ℤ r.self.numsync_confirmed) (pos 0))
                (h.led ∙ sym h.sync_tracks.wanted)
                (max_nonneg (r.self.numsync -ℤ r.self.numsync_confirmed)) (same skipped).0
                (same skipped).1,
            h.broken,
          )))
        (λ s _. tt)
    where
      max_nonneg : (a : ℤ) → pos 0 ≤ℤ max_ℤ a (pos 0)
      max_nonneg a = ground arith

      same :
          (is_unchanged r.self
                (adjust r.self (len r.self.sync -ℤ r.self.numsync) r.self.sync none true).0
                (adjust r.self (len r.self.sync -ℤ r.self.numsync) r.self.sync none true).1
                (adjust r.self (len r.self.sync -ℤ r.self.numsync) r.self.sync none true).2
              && nonempty r.self.voters)
            ≡ true
          → (eqb_ℤ
                (len r.self.sync
                  -ℤ r.self.numsync
                  +ℤ max_ℤ (r.self.numsync -ℤ r.self.numsync_confirmed) (pos 0))
                r.self.quorum
              ≡ true)
            × (eq_set r.self.sync r.self.voters ≡ true)
      same skipped = elim (Bool-cases (is_empty r.self.voters)) [
        | inl e ↦ absurd (ground arith)
        | inr e ↦ (ground arith, ground arith)
      ]

  reset_quorum-Outcome :
      (r : Run Resolver Transition)
      → Recoverable r
      → Outcome
          (InStep leader_wanted min_sync start)
          (Anything leader_wanted min_sync start)
          (reset_quorum r).0
          (reset_quorum r).1
  unfolding reset_quorum
  reset_quorum-Outcome r (inl h) = read-Outcome _ (Anything leader_wanted min_sync start) _ r (
      bind-Outcome _ _ r
        ((quorum_update-Tracks leader_wanted min_sync start (len r.self.sync -ℤ r.self.numsync)
            r.self.sync none true).at
          r h)
        (λ _. search keeps_rules))
  reset_quorum-Outcome r (inr h) =
      read-Outcome _ (Anything leader_wanted min_sync start) _ r
        (bind-Outcome _ _ r (reset-Broken-Outcome r h) (λ _. search keeps_rules))

  handle_leader-Safe :
      Keeps
        (InStep leader_wanted min_sync start)
        (Anything leader_wanted min_sync start)
        (catch handle_leader reset_quorum)
  handle_leader-Safe =
      Keeps-catch handle_leader reset_quorum handle_leader-Guarded reset_quorum-Outcome

  pub generate_transitions-Safe :
      Keeps
        (InStep leader_wanted min_sync start)
        (Anything leader_wanted min_sync start)
        generate_transitions
  unfolding generate_transitions
  generate_transitions-Safe = Keeps-bind _ _ handle_leader-Safe (λ returned.
      Keeps-if returned _ _ (Keeps-pure tt) (generate_steady-Safe leader_wanted min_sync start))
