-- ===== src/Async/Race.antt =====
-- Two behaviours at a time: a whole task, and a cancellation that comes before the task has started.
use area.Common.{
  ℕ, suc, ◌≡◌, refl, Bool, true, false, Option, none, some, List, [], ◌∷◌, Text, if◌then◌else◌,
}
use area.Async.Critical.{CriticalTask, reset}
use area.Async.Executor.{
  Ending, wakes, schedule, reset_scheduled_action, run_begin, run_end, reset_is_cancelled,
  cancel_begin, cancel_process,
}
use area.Async.Threads.{
  running, idle, System, Event, try_run_async, turn, cancel, terminate, await, run, run_at, step,
  execute,
}

abbrev pub four_turns : Ending → List Event
four_turns ending = turn 0 ending ∷ turn 0 ending ∷ turn 0 ending ∷ turn 0 ending ∷ []

module _ {R : Type 0} where
  abbrev pub at_rest : Option Text → Bool → Bool → CriticalTask R → Bool → ℕ → System R
  at_rest action off event task flag n = record {
    executor = record {
      scheduled_action = action;
      is_cancelled = off;
      finish_event = event;
      critical_task = task;
      cancellable = flag;
    };
    threads = [];
    canceller = idle;
    wakeups = n;
  }

  -- A task that is scheduled on an idle executor and left alone runs to its end: the executor is idle
  -- again with its critical task reset, and the HA loop is woken up unless the function returned None.
  pub run_to_end :
      (action : Text) (ending : Ending) (off event flag : Bool) (task : CriticalTask R) (n : ℕ)
      → execute (try_run_async action ∷ four_turns ending) (at_rest none off event task flag n)
        ≡ some (at_rest none false true (reset task) false (if wakes ending then suc n else n))
  unfolding execute step schedule run_at run run_begin run_end reset_is_cancelled
      reset_scheduled_action
  run_to_end action ending off event flag task n = refl

  -- A task that is cancelled before its thread starts, and followed by another one, is not stopped:
  -- both of them run at the same time.
  pub late_start_races :
      (a b : Text) (ending : Ending) (off event flag : Bool) (task : CriticalTask R) (n : ℕ)
      → (s : System R) × (execute
            (try_run_async a
              ∷ cancel
              ∷ terminate
              ∷ await
              ∷ try_run_async b
              ∷ turn 0 ending
              ∷ turn 0 ending
              ∷ turn 1 ending
              ∷ turn 1 ending
              ∷ [])
            (at_rest none off event task flag n)
          ≡ some s)
        × (s.threads ≡ running ∷ running ∷ [])
  unfolding execute step schedule run_at run run_begin run_end reset_is_cancelled
      reset_scheduled_action cancel_begin cancel_process
  late_start_races a b ending off event flag task n = (_, refl, refl)
