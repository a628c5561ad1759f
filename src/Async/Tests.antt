-- ===== src/Async/Tests.antt =====
-- The theorems on the executor at small runs.
use area.Common.{
  ℕ, ◌≤◌, ◌≡◌, ◌⊎◌, refl, true, false, not, none, some, List, [], ◌∷◌, length, is_empty, codes,
  if◌then◌else◌,
}
use area.Async.Critical.{
  cancelling, performing, new_task, reset, attempt_all, cancelled-or-performed,
}
use area.Async.Executor.{
  Ending, wakes, new_executor, busy, schedule, reset_scheduled_action, run_begin, run_end,
  reset_is_cancelled, cancel_begin, cancel_process,
}
use area.Async.Threads.{
  running, finishing, idle, awaiting, System, Event, try_run_async, turn, cancel, terminate, await,
  initial, run, run_at, step, execute,
}
use area.Async.Exclusion.{orderly, mutual_exclusion, cancel_waits}
use area.Async.Race.{four_turns, at_rest, run_to_end, late_start_races}

cancelled-or-performed_example :
    (let tally =
        (attempt_all {R = ℕ}
          (cancelling ∷ performing 7 ∷ cancelling ∷ [])
          (new_task, record { granted = 0; performed = 0 })).1 in
      (tally.granted ≡ 0) ⊎ (tally.performed ≡ 0))
cancelled-or-performed_example =
    cancelled-or-performed {R = ℕ} (cancelling ∷ performing 7 ∷ cancelling ∷ [])

abbrev stopped_restart : List Event
stopped_restart =
    try_run_async (codes "restart")
    ∷ turn 0 Ending.raised
    ∷ turn 0 Ending.raised
    ∷ cancel
    ∷ terminate
    ∷ turn 0 Ending.raised
    ∷ []

abbrev cancelled_restart : List Event
cancelled_restart =
    try_run_async (codes "restart")
    ∷ turn 0 Ending.raised
    ∷ turn 0 Ending.raised
    ∷ cancel
    ∷ terminate
    ∷ turn 0 Ending.raised
    ∷ turn 0 Ending.raised
    ∷ []

abbrev before_await : System ℕ
before_await = record {
  executor = record {
    scheduled_action = none;
    is_cancelled = true;
    finish_event = true;
    critical_task = record { is_cancelled = false; result = none };
    cancellable = true;
  };
  threads = [];
  canceller = awaiting;
  wakeups = 1;
}

abbrev while_stopping : System ℕ
while_stopping = record {
  executor = record {
    scheduled_action = some (codes "restart");
    is_cancelled = true;
    finish_event = false;
    critical_task = record { is_cancelled = false; result = none };
    cancellable = true;
  };
  threads = finishing Ending.raised ∷ [];
  canceller = awaiting;
  wakeups = 0;
}

mutual_exclusion_example :
    (length while_stopping.threads ≤ 1)
    × (busy while_stopping.executor ≡ not (is_empty while_stopping.threads))
unfolding initial new_executor new_task orderly execute step schedule run_at run run_begin run_end
    reset_is_cancelled reset_scheduled_action cancel_begin cancel_process wakes reset
mutual_exclusion_example = mutual_exclusion stopped_restart while_stopping refl refl

cancel_waits_example :
    ((record before_await { canceller = idle }).threads ≡ [])
    × (busy (record before_await { canceller = idle }).executor ≡ false)
unfolding initial new_executor new_task orderly execute step schedule run_at run run_begin run_end
    reset_is_cancelled reset_scheduled_action cancel_begin cancel_process wakes reset
cancel_waits_example =
    cancel_waits cancelled_restart before_await (record before_await { canceller = idle }) refl refl
      refl

run_to_end_example :
    execute {R = ℕ}
      (try_run_async (codes "restart") ∷ four_turns Ending.returned_none)
      (at_rest none true false new_task true 4)
    ≡ some (
        at_rest none false true
          (reset new_task)
          false
          (if wakes Ending.returned_none then 5 else 4))
run_to_end_example = run_to_end (codes "restart") Ending.returned_none true false true new_task 4

late_start_races_example :
    (s : System ℕ) × (execute
        (try_run_async (codes "restart")
          ∷ cancel
          ∷ terminate
          ∷ await
          ∷ try_run_async (codes "promote")
          ∷ turn 0 Ending.returned_none
          ∷ turn 0 Ending.returned_none
          ∷ turn 1 Ending.returned_none
          ∷ turn 1 Ending.returned_none
          ∷ [])
        (at_rest none false false new_task false 0)
      ≡ some s)
    × (s.threads ≡ running ∷ running ∷ [])
late_start_races_example =
    late_start_races (codes "restart") (codes "promote") Ending.returned_none false false false
      new_task 0
