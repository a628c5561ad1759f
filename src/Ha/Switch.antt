-- ===== src/Ha/Switch.antt =====
-- `should_run_scheduled_action` and `process_manual_failover_from_leader`. A scheduled time has its zone,
-- as ctl.py and api.py see to.
use area.Common.{
  ℕ, ◌*◌, ◌/◌, ℤ, pos, ◌-ℤ◌, ltb_ℤ, Bool, false, not, ◌&&◌, ◌||◌, Option, none, some, ◌∷◌,
  if◌then◌else◌,
}
use area.Sync.State.{is_set}
use area.Cluster.Member.{Member}
use area.Cluster.View.{Failover, has_failover}
use area.Ha.Status.{ApiResponse}
use area.Ha.Node.{Ha, remove_failover}
use area.Ha.Race.{is_name}
use area.Ha.Candidates.{is_failover_possible}

-- What becomes of a scheduled action.
pub data Schedule : Type 0 where
  await stale run : Schedule

-- `loop_wait` and the times are in seconds.
unfoldable pub should_run_scheduled_action : Bool → ℕ → ℤ → ℤ → Schedule
should_run_scheduled_action is_paused loop_wait now scheduled_at =
    let delta = scheduled_at -ℤ now in
    if is_paused
    then await
    else if ltb_ℤ (pos loop_wait) delta
    then await
    else if ltb_ℤ delta (pos 0 -ℤ pos (loop_wait * 3 / 2))
    then stale
    else run

pub data Decision : Type 0 where
  no_action demote clean_up : Decision

module _ {Version : Type 0} (request : Member → Option ApiResponse) where
  -- The test of the names and of the candidates, once it is time.
  unfoldable pub decide : Failover Version → Ha Version → Decision
  decide failover ha =
      if is_set failover.leader && not (is_name failover.leader ha.node.name)
      then clean_up
      else if is_set failover.candidate && is_name failover.candidate ha.node.name
      then clean_up
      else if not (is_set failover.candidate) && ha.settings.is_paused
      then clean_up
      else if is_failover_possible ha request (pos 0) false
      then demote
      else clean_up

  -- What is done when the time allows it.
  unfoldable pub on_schedule : Schedule → Failover Version → Ha Version → Decision
  unfolding decide
  on_schedule await failover ha = no_action
  on_schedule stale failover ha = clean_up
  on_schedule run failover ha = decide failover ha

  unfoldable pub schedule_of : ℕ → Failover Version → Ha Version → Schedule
  unfolding should_run_scheduled_action
  schedule_of loop_wait failover ha = elim failover.scheduled_at [
    | none ↦ run
    | some time ↦ should_run_scheduled_action ha.settings.is_paused loop_wait ha.time time
  ]

  unfoldable pub from_leader : ℕ → Option (Failover Version) → Ha Version → Decision
  unfolding on_schedule schedule_of
  from_leader loop_wait none ha = no_action
  from_leader loop_wait (some failover) ha =
      if not (has_failover (some failover)) || (ha.settings.is_paused && not ha.node.is_primary)
      then no_action
      else on_schedule (schedule_of loop_wait failover ha) failover ha

  -- A failover key that is not acted upon is removed.
  abbrev pub cleaned : Decision → Option (Failover Version) → Ha Version → Ha Version
  cleaned clean_up (some failover) ha = record ha {
    requests = remove_failover failover.version ∷ ha.requests;
  }
  cleaned _ _ ha = ha

  unfoldable pub process_manual_failover_from_leader : ℕ → Ha Version → Decision × Ha Version
  unfolding from_leader
  process_manual_failover_from_leader loop_wait ha =
      let decision = from_leader loop_wait ha.cluster.failover ha in
      (decision, cleaned decision ha.cluster.failover ha)
