-- ===== src/Async/Exclusion.antt =====
-- One task at a time, for callers that schedule and cancel in good order.
use area.Common.{
  ℕ, zero, suc, ◌≤◌, ◌≡◌, refl, subst, Bool, true, false, not, ◌&&◌, Option, none, some, List, [],
  ◌∷◌, every, length, is_empty, Text, arith, and-eq-true,
}
use area.Async.Critical.{CriticalTask, new_task}
use area.Async.Executor.{
  AsyncExecutor, Ending, new_executor, busy, schedule, reset_scheduled_action, run_begin, run_end,
  reset_is_cancelled, cancel_begin, cancel_process,
}
use area.Async.Threads.{
  Thread, waiting, entered, running, finishing, Canceller, idle, marked, awaiting, System, Event,
  try_run_async, turn, cancel, terminate, await, initial, run, run_at, step, execute,
}

abbrev has_started : Thread → Bool
has_started waiting = false
has_started _ = true

abbrev is_idle : Canceller → Bool
is_idle idle = true
is_idle _ = false

module _ {R : Type 0} where
  -- A task is scheduled when no cancellation is under way, and a cancellation starts when no thread
  -- is yet to enter `run`.
  abbrev pub allowed : Event → System R → Bool
  allowed (try_run_async action) s = is_idle s.canceller
  allowed cancel s = every has_started s.threads
  allowed _ s = true

  -- Every event of a sequence is allowed where it happens.
  unfoldable pub orderly : List Event → System R → Bool
  orderly [] s = true
  orderly (e ∷ es) s = allowed e s && elim (step e s) [ none ↦ true | some s' ↦ orderly es s' ]

  abbrev at_rest : Option Text → Bool → Bool → CriticalTask R → Bool → AsyncExecutor R
  at_rest action off event task flag = record {
    scheduled_action = action;
    is_cancelled = off;
    finish_event = event;
    critical_task = task;
    cancellable = flag;
  }

  -- No thread, one that was not called off before it enters `run`, or one inside `run`.
  data Exclusive : System R → Type 0 where
    free :
        (off event : Bool) (task : CriticalTask R) (flag : Bool) (c : Canceller) (n : ℕ)
        → Exclusive (record {
          executor = at_rest none off event task flag;
          threads = [];
          canceller = c;
          wakeups = n;
        })
    pending :
        (action : Text) (event : Bool) (task : CriticalTask R) (flag : Bool) (n : ℕ)
        → Exclusive (record {
          executor = at_rest (some action) false event task flag;
          threads = waiting ∷ [];
          canceller = idle;
          wakeups = n;
        })
    inside :
        (action : Text) (off : Bool) (task : CriticalTask R) (flag : Bool) (t : Thread)
        (c : Canceller) (n : ℕ)
        → has_started t ≡ true
        → Exclusive (record {
          executor = at_rest (some action) off false task flag;
          threads = t ∷ [];
          canceller = c;
          wakeups = n;
        })

  abbrev Next : Option (System R) → Type 0
  Next none = Unit {0}
  Next (some s) = Exclusive s

  turn-Exclusive : (i : ℕ) (e : Ending) (s : System R) → Exclusive s → Next (step (turn i e) s)
  unfolding step run_at run run_begin run_end reset_is_cancelled reset_scheduled_action
  turn-Exclusive i e _ (free off event task flag c n) = tt
  turn-Exclusive zero e _ (pending action event task flag n) =
      inside action false task flag entered idle n refl
  turn-Exclusive (suc i) e _ (pending action event task flag n) = tt
  turn-Exclusive zero e _ (inside action off task flag waiting c n k) = cc
  turn-Exclusive zero e _ (inside action off task flag entered c n k) =
      inside action off task false running c n refl
  turn-Exclusive zero e _ (inside action off task flag running c n k) =
      inside action off task flag (finishing e) c n refl
  turn-Exclusive zero e _ (inside action off task flag (finishing how) c n k) =
      free off true _ flag c _
  turn-Exclusive (suc i) e _ (inside action off task flag t c n k) = tt

  step-Exclusive : (e : Event) (s : System R) → Exclusive s → allowed e s ≡ true → Next (step e s)
  unfolding step schedule cancel_begin cancel_process reset_scheduled_action
  step-Exclusive (try_run_async action) _ (free off event task flag idle n) k =
      pending action true task flag n
  step-Exclusive (try_run_async action) _ (free off event task flag marked n) k = cc
  step-Exclusive (try_run_async action) _ (free off event task flag awaiting n) k = cc
  step-Exclusive (try_run_async action) _ (pending p event task flag n) k =
      pending p event task flag n
  step-Exclusive (try_run_async action) _ (inside p off task flag t c n b) k =
      inside p off task flag t c n b
  step-Exclusive (turn i e) s x k = turn-Exclusive i e s x
  step-Exclusive cancel _ (free off event task flag idle n) k = free off event task flag idle n
  step-Exclusive cancel _ (free off event task flag marked n) k = tt
  step-Exclusive cancel _ (free off event task flag awaiting n) k = tt
  step-Exclusive cancel _ (pending p event task flag n) k = cc
  step-Exclusive cancel _ (inside p off task flag t idle n b) k =
      inside p true task flag t marked n b
  step-Exclusive cancel _ (inside p off task flag t marked n b) k = tt
  step-Exclusive cancel _ (inside p off task flag t awaiting n b) k = tt
  step-Exclusive terminate _ (free off event task flag idle n) k = tt
  step-Exclusive terminate _ (free off event task flag marked n) k =
      free off event task true awaiting n
  step-Exclusive terminate _ (free off event task flag awaiting n) k = tt
  step-Exclusive terminate _ (pending p event task flag n) k = tt
  step-Exclusive terminate _ (inside p off task flag t idle n b) k = tt
  step-Exclusive terminate _ (inside p off task flag t marked n b) k =
      inside p off task true t awaiting n b
  step-Exclusive terminate _ (inside p off task flag t awaiting n b) k = tt
  step-Exclusive await _ (free off event task flag idle n) k = tt
  step-Exclusive await _ (free off event task flag marked n) k = tt
  step-Exclusive await _ (free off true task flag awaiting n) k = free off true task flag idle n
  step-Exclusive await _ (free off false task flag awaiting n) k = tt
  step-Exclusive await _ (pending p event task flag n) k = tt
  step-Exclusive await _ (inside p off task flag t idle n b) k = tt
  step-Exclusive await _ (inside p off task flag t marked n b) k = tt
  step-Exclusive await _ (inside p off task flag t awaiting n b) k = tt

  execute-Exclusive :
      (es : List Event) (s : System R) → Exclusive s → orderly es s ≡ true → Next (execute es s)
  unfolding execute orderly
  execute-Exclusive [] s x h = x
  execute-Exclusive (e ∷ es) s x h =
      let (k, l) = and-eq-true _ _ h in
      go (step e s) (step-Exclusive e s x k) l (λ t. execute-Exclusive es t)
    where
      go :
          (r : Option (System R))
          → Next r
          → elim r [ none ↦ true | some s' ↦ orderly es s' ] ≡ true
          → ((t : System R) → Exclusive t → orderly es t ≡ true → Next (execute es t))
          → Next (elim r [ none ↦ none | some s' ↦ execute es s' ])
      go none n l rest = tt
      go (some s') n l rest = rest s' n l

  reached-Exclusive :
      (es : List Event) {s : System R}
      → orderly es (initial {R = R}) ≡ true
      → execute es initial ≡ some s
      → Exclusive s
  unfolding initial new_executor
  reached-Exclusive es o h =
      subst Next h (execute-Exclusive es initial (free false false new_task false idle 0) o)

  counted :
      (s : System R)
      → Exclusive s
      → (length s.threads ≤ 1) × (busy s.executor ≡ not (is_empty s.threads))
  unfolding busy
  counted _ (free off event task flag c n) = (omega arith, refl)
  counted _ (pending action event task flag n) = (omega arith, refl)
  counted _ (inside action off task flag t c n k) = (omega arith, refl)

  -- After any orderly sequence of events, there is at most one task thread, and the executor is busy
  -- exactly if there is one.
  pub mutual_exclusion :
      (es : List Event) (s : System R)
      → orderly es (initial {R = R}) ≡ true
      → execute es initial ≡ some s
      → (length s.threads ≤ 1) × (busy s.executor ≡ not (is_empty s.threads))
  mutual_exclusion es s o h = counted s (reached-Exclusive es o h)

  abbrev Quiet : Option (System R) → Type 0
  Quiet none = Unit {0}
  Quiet (some s) = (s.threads ≡ []) × (busy s.executor ≡ false)

  await-Quiet : (s : System R) → Exclusive s → Quiet (step await s)
  unfolding step busy reset_scheduled_action
  await-Quiet _ (free off true task flag awaiting n) = (refl, refl)
  await-Quiet _ (free off false task flag awaiting n) = tt
  await-Quiet _ (free off event task flag idle n) = tt
  await-Quiet _ (free off event task flag marked n) = tt
  await-Quiet _ (pending action event task flag n) = tt
  await-Quiet _ (inside action off task flag t idle n b) = tt
  await-Quiet _ (inside action off task flag t marked n b) = tt
  await-Quiet _ (inside action off task flag t awaiting n b) = tt

  -- After any orderly sequence of events, a cancellation that stops waiting leaves no task thread
  -- and an executor that is not busy.
  pub cancel_waits :
      (es : List Event) (s s' : System R)
      → orderly es (initial {R = R}) ≡ true
      → execute es initial ≡ some s
      → step await s ≡ some s'
      → (s'.threads ≡ []) × (busy s'.executor ≡ false)
  cancel_waits es s s' o h w = subst Quiet w (await-Quiet s (reached-Exclusive es o h))
