-- ===== src/Ha/Demote.antt =====
-- A leader gives up its place on request only if there is a node that can take over.
use area.Common.{
  ℕ, ◌*◌, ◌/◌, ℤ, pos, ◌+ℤ◌, ◌-ℤ◌, ◌≤ℤ◌, ltb_ℤ, int_laws, ◌≡◌, refl, arith, Bool, true, false, not,
  ◌&&◌, ◌||◌, Option, none, some, if◌then◌else◌,
}
use area.Cluster.Member.{Member}
use area.Cluster.View.{Failover, has_failover}
use area.Ha.Status.{ApiResponse, fetch_node_status}
use area.Ha.Node.{Ha}
use area.Ha.Candidates.{is_candidate, is_promotable, is_failover_possible}
use area.Ha.Possible.{Found, is_failover_possible-Found}
use area.Ha.Switch.{
  Schedule, no_action, demote, await, stale, run, should_run_scheduled_action, decide, on_schedule,
  schedule_of, from_leader, process_manual_failover_from_leader,
}

-- The time is near enough, if there is one.
abbrev pub IsDue : ℕ → Option ℤ → ℤ → Type 0
IsDue loop_wait none now = Unit
IsDue loop_wait (some time) now =
    (time ≤ℤ now +ℤ pos loop_wait) × (now ≤ℤ time +ℤ pos (loop_wait * 3 / 2))

ltb_ℤ→≤ℤ : (a b : ℤ) → ltb_ℤ a b ≡ false → b ≤ℤ a
ltb_ℤ→≤ℤ a b h = ground arith

run-tests :
    (p : Bool) (loop_wait : ℕ) (now time : ℤ)
    → should_run_scheduled_action p loop_wait now time ≡ run
    → (ltb_ℤ (pos loop_wait) (time -ℤ now) ≡ false)
      × (ltb_ℤ (time -ℤ now) (pos 0 -ℤ pos (loop_wait * 3 / 2)) ≡ false)
unfolding should_run_scheduled_action
run-tests p loop_wait now time h = (ground arith, ground arith)

run-IsDue :
    (p : Bool) (loop_wait : ℕ) (now time : ℤ)
    → should_run_scheduled_action p loop_wait now time ≡ run
    → IsDue loop_wait (some time) now
run-IsDue p loop_wait now time h =
    let (a, b) = run-tests p loop_wait now time h in
    let k = ltb_ℤ→≤ℤ (pos loop_wait) (time -ℤ now) a in
    let l = ltb_ℤ→≤ℤ (time -ℤ now) (pos 0 -ℤ pos (loop_wait * 3 / 2)) b in
    (omega (int_laws, k), omega (int_laws, l))

module _ {Version : Type 0} (request : Member → Option ApiResponse) where
  decide-demote :
      (f : Failover Version) (ha : Ha Version)
      → decide request f ha ≡ demote
      → is_failover_possible ha request (pos 0) false ≡ true
  unfolding decide
  decide-demote f ha h = ground arith

  on_schedule-demote :
      (s : Schedule) (f : Failover Version) (ha : Ha Version)
      → on_schedule request s f ha ≡ demote
      → (s ≡ run) × (decide request f ha ≡ demote)
  unfolding on_schedule
  on_schedule-demote await f ha h = cc
  on_schedule-demote stale f ha h = cc
  on_schedule-demote run f ha h = (refl, h)

  from_leader-demote :
      (loop_wait : ℕ) (o : Option (Failover Version)) (ha : Ha Version)
      → from_leader request loop_wait o ha ≡ demote
      → (f : Failover Version) × (o ≡ some f)
        × (schedule_of request loop_wait f ha ≡ run)
        × (decide request f ha ≡ demote)
  unfolding from_leader
  from_leader-demote loop_wait none ha h = cc
  from_leader-demote loop_wait (some f) ha h =
      let (s, d) = on_schedule-demote (schedule_of request loop_wait f ha) f ha (acted h) in
      (f, refl, s, d)
    where
      acted :
          (if not (has_failover (some f)) || (ha.settings.is_paused && not ha.node.is_primary)
              then no_action
              else on_schedule request (schedule_of request loop_wait f ha) f ha)
            ≡ demote
          → on_schedule request (schedule_of request loop_wait f ha) f ha ≡ demote
      acted h = ground arith

  schedule_of-IsDue :
      (loop_wait : ℕ) (o : Option ℤ) (ha : Ha Version)
      → (elim o as (λ _. Schedule) [
        | none ↦ run
        | some time ↦ should_run_scheduled_action ha.settings.is_paused loop_wait ha.time time
      ])
        ≡ run
      → IsDue loop_wait o ha.time
  schedule_of-IsDue loop_wait none ha h = tt
  schedule_of-IsDue loop_wait (some time) ha h =
      run-IsDue ha.settings.is_paused loop_wait ha.time time h

  -- If the leader gives up its place, then a failover is requested whose time, if it has one, is at most
  -- one `loop_wait` ahead and at most one and a half past; and some member is a candidate that answers
  -- that it may be promoted and is near enough.
  pub process_manual_failover_from_leader-Found :
      (loop_wait : ℕ) (ha : Ha Version)
      → (process_manual_failover_from_leader request loop_wait ha).0 ≡ demote
      → (f : Failover Version) × (ha.cluster.failover ≡ some f)
        × IsDue loop_wait f.scheduled_at ha.time
        × Found ha request
            (λ m. is_promotable ha (pos 0) (fetch_node_status request m))
            (is_candidate ha false)
            ha.cluster.members
  unfolding process_manual_failover_from_leader schedule_of
  process_manual_failover_from_leader-Found loop_wait ha h =
      let (f, e, s, d) = from_leader-demote loop_wait ha.cluster.failover ha h in
      (
        f,
        e,
        schedule_of-IsDue loop_wait f.scheduled_at ha s,
        (is_failover_possible-Found ha request (pos 0) false (decide-demote f ha d)).0,
      )
