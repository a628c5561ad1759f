-- ===== src/Async/Threads.antt =====
-- The threads that use the executor, one step of one of them at a time.
use area.Common.{
  ℕ, zero, suc, Bool, false, Option, none, some, List, [], ◌∷◌, ◌++◌, Text, if◌then◌else◌,
}
use area.Async.Executor.{
  AsyncExecutor, Ending, wakes, new_executor, schedule, reset_scheduled_action, run_begin, run_end,
  reset_is_cancelled, cancel_begin, cancel_process,
}

-- Where a thread is in `run`: before its first block, before `reset_is_cancelled`, in the function,
-- or before the `finally` block, with what it will do with the HA loop.
pub data Thread : Type 0 where
  waiting entered running : Thread
  finishing : Ending → Thread

-- Where the HA thread is in `cancel`: nowhere, before `_cancellable.cancel()`, or before it waits for
-- the event.
pub data Canceller : Type 0 where
  idle marked awaiting : Canceller

pub record System (R : Type 0) : Type 0 where
  pub executor : AsyncExecutor R
  pub threads : List Thread
  pub canceller : Canceller
  pub wakeups : ℕ

pub data Event : Type 0 where
  try_run_async : Text → Event
  turn : ℕ → Ending → Event
  cancel terminate await : Event

-- A thread after its step, if it goes on, and whether it wakes the HA loop.
pub record Stepped (R : Type 0) : Type 0 where
  pub executor : AsyncExecutor R
  pub thread : Option Thread
  pub woken : Bool

abbrev put : Option Thread → List Thread → List Thread
put none ts = ts
put (some t) ts = t ∷ ts

abbrev start : Option Text → List Thread → List Thread
start none ts = ts ++ waiting ∷ []
start (some prev) ts = ts

module _ {R : Type 0} where
  unfoldable pub initial : System R
  initial = record { executor = new_executor; threads = []; canceller = idle; wakeups = 0 }

  -- A step of `run`. A running function ends in the given way.
  unfoldable pub run : Ending → Thread → AsyncExecutor R → Stepped R
  run ending waiting ex =
      let (go, ex) = run_begin ex in
      record {
        executor = ex;
        thread = some (if go then entered else finishing Ending.cancelled);
        woken = false;
      }
  run ending entered ex = record {
    executor = reset_is_cancelled ex;
    thread = some running;
    woken = false;
  }
  run ending running ex = record { executor = ex; thread = some (finishing ending); woken = false }
  run ending (finishing how) ex = record { executor = run_end ex; thread = none; woken = wakes how }

  -- The step of the thread at an index.
  unfoldable pub run_at :
      ℕ → Ending → List Thread → AsyncExecutor R → Option (List Thread × Stepped R)
  run_at i ending [] ex = none
  run_at zero ending (t ∷ ts) ex = let next = run ending t ex in some (put next.thread ts, next)
  run_at (suc i) ending (t ∷ ts) ex = keep_head (run_at i ending ts ex)
    where
      keep_head : Option (List Thread × Stepped R) → Option (List Thread × Stepped R)
      keep_head none = none
      keep_head (some (ts, next)) = some (t ∷ ts, next)

  abbrev after_turn : System R → Option (List Thread × Stepped R) → Option (System R)
  after_turn s none = none
  after_turn s (some (ts, next)) = some (record s {
    executor = next.executor;
    threads = ts;
    wakeups = if next.woken then suc s.wakeups else s.wakeups;
  })

  -- One event; none where the thread it belongs to is elsewhere or has to wait.
  unfoldable pub step : Event → System R → Option (System R)
  step (try_run_async action) s =
      let (prev, ex) = schedule action s.executor in
      some (record s { executor = ex; threads = start prev s.threads })
  step (turn i ending) s = after_turn s (run_at i ending s.threads s.executor)
  step cancel s = elim s.canceller [
    | idle ↦
        let (go, ex) = cancel_begin s.executor in
        some (record s { executor = ex; canceller = if go then marked else idle })
    | marked ↦ none
    | awaiting ↦ none
  ]
  step terminate s = elim s.canceller [
    | idle ↦ none
    | marked ↦ some (record s { executor = cancel_process s.executor; canceller = awaiting })
    | awaiting ↦ none
  ]
  step await s = elim s.canceller [
    | idle ↦ none
    | marked ↦ none
    | awaiting ↦
        if s.executor.finish_event
        then some (record s { executor = reset_scheduled_action s.executor; canceller = idle })
        else none
  ]

  -- A sequence of events.
  unfoldable pub execute : List Event → System R → Option (System R)
  execute [] s = some s
  execute (e ∷ es) s = elim (step e s) [ none ↦ none | some s' ↦ execute es s' ]
