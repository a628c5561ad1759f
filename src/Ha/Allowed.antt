-- ===== src/Ha/Allowed.antt =====
-- Who may win: the guards of `is_healthiest_node`.
use area.Common.{
  ◌⊎◌, ◌≡◌, refl, sym, ap, ◌∙◌, inl, inr, arith, Bool-cases, ℤ, ltb_ℤ, ◌-ℤ◌, Bool, true, false, not,
  ◌&&◌, and-eq-true, Option, none, some,
}
use area.Tags.{nofailover}
use area.Sync.State.{is_set, matches}
use area.Cluster.Member.{Member}
use area.Cluster.View.{Failover, has_failover}
use area.Ha.Status.{ApiResponse}
use area.Ha.Node.{Ha, sync_mode_is_active, is_quorum_commit_mode}
use area.Ha.Race.{is_name}
use area.Ha.Candidates.{failover_candidate}
use area.Ha.Manual.{
  switch_over, race_without, manual_failover_process_no_leader, race, or_false, stand, decided,
  is_healthiest_node, extend_members,
}

module _ {Version : Type 0} (request : Member → Option ApiResponse) where
  -- A node with the tag is never a winner as a replica.
  stand-nofailover :
      (ha : Ha Version)
      → nofailover ha.node.tags ≡ true
      → (stand request ha).0 ≡ true
      → ha.node.is_primary ≡ true
  unfolding stand
  stand-nofailover ha n h = ground arith

  -- A node with the tag `nofailover` is the healthiest only as a running primary, whatever failover is
  -- requested.
  pub is_healthiest_node-nofailover :
      (ha : Ha Version)
      → nofailover ha.node.tags ≡ true
      → (is_healthiest_node request ha).0 ≡ true
      → ha.node.is_primary ≡ true
  unfolding is_healthiest_node
  is_healthiest_node-nofailover ha n h = stand-nofailover ha n (ground arith)

  manual-matches :
      (f : Failover Version) (ha : Ha Version)
      → is_name f.candidate ha.node.name ≡ false
      → sync_mode_is_active ha ≡ true
      → is_quorum_commit_mode ha ≡ false
      → (manual_failover_process_no_leader request f ha).0 ≡ some true
      → (ha.settings.is_paused ≡ false)
        × ((is_set f.candidate ≡ false) ⊎ (matches (some ha.node.name) true ha.cluster.sync ≡ true))
  unfolding manual_failover_process_no_leader sync_mode_is_active
  manual-matches f ha c s q h = elim (Bool-cases (is_set f.candidate)) [
    | inl e ↦ (ground arith, inr (ground arith))
    | inr e ↦ (ground arith, inl e)
  ]

  race-matches :
      (ha : Ha Version)
      → sync_mode_is_active ha ≡ true
      → is_quorum_commit_mode ha ≡ false
      → (race request ha).0 ≡ true
      → matches (some ha.node.name) true ha.cluster.sync ≡ true
  unfolding race extend_members sync_mode_is_active is_quorum_commit_mode
  race-matches ha s q h = ground arith

  or_false-true : (r : Option Bool × Ha Version) → (or_false request r).0 ≡ true → r.0 ≡ some true
  or_false-true (none, ha) h = cc
  or_false-true (some b, ha) h = ap some h

  -- A failover with no candidate names a leader.
  has_failover-leader :
      (f : Failover Version)
      → has_failover (some f) ≡ true
      → is_set f.candidate ≡ false
      → is_set f.leader ≡ true
  unfolding has_failover
  has_failover-leader f h c = ground arith

  stand-matches :
      (ha : Ha Version) (o : Option (Failover Version))
      → ha.cluster.failover ≡ o
      → ha.node.is_primary ≡ false
      → sync_mode_is_active ha ≡ true
      → is_quorum_commit_mode ha ≡ false
      → is_name (failover_candidate o) ha.node.name ≡ false
      → (stand request ha).0 ≡ true
      → matches (some ha.node.name) true ha.cluster.sync ≡ true
  unfolding stand failover_candidate
  stand-matches ha none e p s q c h = race-matches ha s q (ground arith)
  stand-matches ha (some f) e p s q c h =
      elim (Bool-cases (matches (some ha.node.name) true ha.cluster.sync)) [
        | inl m ↦ m
        | inr m ↦ elim (Bool-cases (has_failover (some f))) [
          | inr k ↦ race-matches ha s q (ground arith)
          | inl k ↦
              let (_, r) =
                manual-matches f ha c s q
                  (or_false-true (manual_failover_process_no_leader request f ha) (ground arith)) in
              elim r [ inr t ↦ t | inl n ↦ let l = has_failover-leader f k n in ground arith ]
        ]
      ]

  decided-true :
      (r : Option Bool × Ha Version)
      → (decided request r).0 ≡ true
      → (r.0 ≡ some true) ⊎ ((r.0 ≡ none) × ((stand request r.1).0 ≡ true))
  decided-true (none, ha) h = inr (refl, h)
  decided-true (some b, ha) h = inl (ap some h)

  -- While the node is paused only a primary, or the candidate of a failover, may win.
  stand-paused :
      (ha : Ha Version)
      → ha.settings.is_paused ≡ true
      → (stand request ha).0 ≡ true
      → ha.node.is_primary ≡ true
  unfolding stand
  stand-paused ha p h = ground arith

  manual-keeps :
      (f : Failover Version) (ha : Ha Version)
      → (manual_failover_process_no_leader request f ha).0 ≡ none
      → ((manual_failover_process_no_leader request f ha).1.node.is_primary ≡ ha.node.is_primary)
        × ((manual_failover_process_no_leader request f ha).1.settings.is_paused
            ≡ ha.settings.is_paused)
  unfolding manual_failover_process_no_leader switch_over race_without
  manual-keeps f ha h = (ground arith, ground arith)

  decided-paused :
      (f : Failover Version) (ha : Ha Version)
      → ha.settings.is_paused ≡ true
      → ha.node.is_primary ≡ false
      → is_name f.candidate ha.node.name ≡ false
      → sync_mode_is_active ha ≡ true
      → is_quorum_commit_mode ha ≡ false
      → (decided request (manual_failover_process_no_leader request f ha)).0 ≡ true
      → ⊥
  decided-paused f ha p r c s q h =
      elim (decided-true (manual_failover_process_no_leader request f ha) h) [
        | inl e ↦ let (u, _) = manual-matches f ha c s q e in cc
        | inr (e, t) ↦ let (k, l) = manual-keeps f ha e in let g = stand-paused _ (l ∙ p) t in cc
      ]

  abbrev Chosen : Ha Version → Type 0
  Chosen ha =
      ((stand request ha).0 ≡ true)
      ⊎ ((ha.settings.is_paused ≡ true)
          × ((f : Failover Version) × (ha.cluster.failover ≡ some f)
              × ((decided request (manual_failover_process_no_leader request f ha)).0 ≡ true)))

  -- What a paused node makes of a failover, if there is one.
  abbrev by_schedule : Ha Version → Failover Version → Option ℤ → Bool × Ha Version
  by_schedule ha f none = decided request (manual_failover_process_no_leader request f ha)
  by_schedule ha f (some t) = stand request ha

  abbrev by_request : Ha Version → Option (Failover Version) → Bool × Ha Version
  by_request ha none = stand request ha
  by_request ha (some f) = by_schedule ha f f.scheduled_at

  by_schedule-Chosen :
      (ha : Ha Version) (f : Failover Version) (t : Option ℤ)
      → ha.settings.is_paused ≡ true
      → ha.cluster.failover ≡ some f
      → (by_schedule ha f t).0 ≡ true
      → Chosen ha
  by_schedule-Chosen ha f none p e k = inr (p, (f, e, k))
  by_schedule-Chosen ha f (some t) p e k = inl k

  by_request-Chosen :
      (ha : Ha Version) (o : Option (Failover Version))
      → ha.settings.is_paused ≡ true
      → ha.cluster.failover ≡ o
      → (by_request ha o).0 ≡ true
      → Chosen ha
  by_request-Chosen ha none p e k = inl k
  by_request-Chosen ha (some f) p e k = by_schedule-Chosen ha f f.scheduled_at p e k

  -- A winner either stands on its own, or a paused manual failover has chosen it.
  is_healthiest_node-Chosen :
      (ha : Ha Version) → (is_healthiest_node request ha).0 ≡ true → Chosen ha
  unfolding is_healthiest_node
  is_healthiest_node-Chosen ha h =
      elim (Bool-cases (ltb_ℤ (ha.time -ℤ ha.released_leader_key_timestamp) ha.ttl)) [
        | inl b ↦ cc (rw b at h)
        | inr b ↦
            elim (Bool-cases (
              ha.settings.is_paused
              && not (nofailover ha.node.tags)
              && has_failover ha.cluster.failover)) [
                | inl t ↦
                    by_request-Chosen ha ha.cluster.failover
                      (and-eq-true _ _ (and-eq-true _ _ t).0).0 refl (rw (b, t) at h)
                | inr t ↦ inl (rw (b, t) at h)
              ]
      ]

  -- In synchronous mode without quorum commit, a replica that is not the requested candidate of a
  -- failover wins only if it is in the /sync key.
  pub is_healthiest_node-matches :
      (ha : Ha Version)
      → ha.node.is_primary ≡ false
      → sync_mode_is_active ha ≡ true
      → is_quorum_commit_mode ha ≡ false
      → is_name (failover_candidate ha.cluster.failover) ha.node.name ≡ false
      → (is_healthiest_node request ha).0 ≡ true
      → matches (some ha.node.name) true ha.cluster.sync ≡ true
  unfolding failover_candidate
  is_healthiest_node-matches ha p s q c h = elim (is_healthiest_node-Chosen ha h) [
    | inl t ↦ stand-matches ha ha.cluster.failover refl p s q c t
    | inr (u, (f, e, d)) ↦ absurd (
        decided-paused f ha u p (ap (λ o. is_name (failover_candidate o) ha.node.name) (sym e) ∙ c)
          s q d)
  ]
