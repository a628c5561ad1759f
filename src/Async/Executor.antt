-- ===== src/Async/Executor.antt =====
-- `AsyncExecutor`. Each definition is what its method does while it holds a lock.
use area.Common.{Bool, true, false, Option, none, some, Text}
use area.Async.Critical.{CriticalTask, new_task, reset}

-- `cancellable` is the flag of `CancellableSubprocess`.
pub record AsyncExecutor (R : Type 0) : Type 0 where
  pub scheduled_action : Option Text
  pub is_cancelled : Bool
  pub finish_event : Bool
  pub critical_task : CriticalTask R
  pub cancellable : Bool

-- How a task ends.
pub data Ending : Type 0 where
  cancelled raised returned_none returned_some : Ending

-- `wakeup is not None`: only a function that returns `None` leaves the HA loop asleep.
unfoldable pub wakes : Ending → Bool
wakes returned_none = false
wakes _ = true

module _ {R : Type 0} where
  unfoldable pub new_executor : AsyncExecutor R
  new_executor = record {
    scheduled_action = none;
    is_cancelled = false;
    finish_event = false;
    critical_task = new_task;
    cancellable = false;
  }

  unfoldable pub busy : AsyncExecutor R → Bool
  busy ex = elim ex.scheduled_action [ none ↦ false | some action ↦ true ]

  unfoldable pub schedule : Text → AsyncExecutor R → Option Text × AsyncExecutor R
  schedule action ex = elim ex.scheduled_action [
    | none ↦ (
      none,
      record ex { scheduled_action = some action; is_cancelled = false; finish_event = true },
    )
    | some prev ↦ (some prev, ex)
  ]

  unfoldable pub reset_scheduled_action : AsyncExecutor R → AsyncExecutor R
  reset_scheduled_action ex = record ex { scheduled_action = none }

  -- The first block of `run`; tells whether the function is to be called.
  unfoldable pub run_begin : AsyncExecutor R → Bool × AsyncExecutor R
  run_begin ex = elim ex.is_cancelled [
    | true ↦ (false, ex)
    | false ↦ (true, record ex { finish_event = false })
  ]

  unfoldable pub reset_is_cancelled : AsyncExecutor R → AsyncExecutor R
  reset_is_cancelled ex = record ex { cancellable = false }

  -- The `finally` block of `run`.
  unfoldable pub run_end : AsyncExecutor R → AsyncExecutor R
  unfolding reset_scheduled_action
  run_end ex =
      let ex = reset_scheduled_action ex in
      record ex { finish_event = true; critical_task = reset ex.critical_task }

  -- The first block of `cancel`; tells whether there is something to cancel.
  unfoldable pub cancel_begin : AsyncExecutor R → Bool × AsyncExecutor R
  cancel_begin ex = elim ex.scheduled_action [
    | none ↦ (false, ex)
    | some action ↦ (true, record ex { is_cancelled = true })
  ]

  -- `CancellableSubprocess.cancel`, as far as later calls see it.
  unfoldable pub cancel_process : AsyncExecutor R → AsyncExecutor R
  cancel_process ex = record ex { cancellable = true }
