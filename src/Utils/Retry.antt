-- ===== src/Utils/Retry.antt =====
-- The class `Retry`, in which time is counted in hundredths of a second, as the jitter is. The random
-- numbers, what each sleep takes beyond what it asks for, and the function that is called are the
-- parameters of a run.
use area.Common.{
  ℕ, zero, suc, ◌+◌, ◌*◌, ltb, leb, ℤ, pos, eqb_ℤ, Bool, false, not, Option, none, some,
  if◌then◌else◌,
}

pub record Retry : Type 0 where
  -- -1 for any number; none, which no number equals, has the same effect.
  pub max_tries : Option ℤ
  pub delay : ℕ
  pub backoff : ℕ
  pub max_jitter : ℕ
  pub max_delay : ℕ
  pub deadline : Option ℕ
  pub attempts : ℕ
  pub cur_delay : ℕ
  pub cur_stoptime : Option ℕ

-- `reset`
unfoldable pub reset : Retry → Retry
reset r = record r { attempts = 0; cur_delay = r.delay; cur_stoptime = none }

-- `sleeptime`, for a random number up to `max_jitter`.
unfoldable pub sleeptime : Retry → ℕ → ℕ
sleeptime r jitter = r.cur_delay + jitter

abbrev pub min : ℕ → ℕ → ℕ
min a b = if ltb b a then b else a

-- `update_delay`
unfoldable pub update_delay : Retry → Retry
update_delay r = record r { cur_delay = min (r.cur_delay * r.backoff) r.max_delay }

-- `stoptime`
unfoldable pub stoptime : Retry → ℕ
stoptime r = elim r.cur_stoptime [ none ↦ 0 | some t ↦ t ]

-- `ensure_deadline` without an exception to raise.
unfoldable pub ensure_deadline : Retry → ℕ → ℕ → Bool
unfolding stoptime
ensure_deadline r now timeout = not (ltb (stoptime r) (now + timeout))

-- What the function does at one call: how long it takes, and how it ends.
pub data Call (A : Type 0) : Type 0 where
  returns : ℕ → A → Call A
  -- A retryable exception, which may have a sleep time of its own.
  fails : ℕ → Option ℕ → Call A
  -- Any other exception.
  raises : ℕ → Call A

pub data Outcome (A : Type 0) : Type 0 where
  result : A → Outcome A
  too_many_attempts deadline_exceeded other_exception : Outcome A

-- How a run ends, when, and how often the function was called.
pub record Run (A : Type 0) : Type 0 where
  pub outcome : Outcome A
  pub time : ℕ
  pub calls : ℕ
  pub left : Retry

abbrev pub stop_of : ℕ → Option ℕ → Option ℕ → Option ℕ
stop_of now deadline (some stop) = some stop
stop_of now none none = none
stop_of now (some d) none = some (now + d)

-- The stop time, which is set before the first call.
unfoldable pub start : Retry → ℕ → Retry
start r now = record r { cur_stoptime = stop_of now r.deadline r.cur_stoptime }

-- `self._attempts == self.max_tries`
unfoldable pub is_last : Retry → Bool
is_last r = elim r.max_tries [ none ↦ false | some m ↦ eqb_ℤ (pos r.attempts) m ]

-- `self._cur_stoptime is not None and time.time() + sleeptime >= self._cur_stoptime`
unfoldable pub is_past : Retry → ℕ → Bool
is_past r time = elim r.cur_stoptime [ none ↦ false | some stop ↦ leb stop time ]

unfoldable pub count_attempt : Retry → Retry
count_attempt r = record r { attempts = suc r.attempts }

-- An exception's own sleep time comes first.
abbrev pub pause_of : (ℕ → ℕ) → Retry → ℕ → Option ℕ → ℕ
pause_of jitter r n own = elim own [ none ↦ sleeptime r (jitter n) | some s ↦ s ]

-- A round of the loop, given what the call does and the rest of the loop.
module _ {A : Type 0} where
  abbrev pub ends : Outcome A → ℕ → ℕ → Retry → Option (Run A)
  ends outcome time n r = some (record { outcome = outcome; time = time; calls = suc n; left = r })

  unfoldable pub round :
      (ℕ → ℕ) → (ℕ → ℕ) → (Retry → ℕ → ℕ → Option (Run A)) → Retry → ℕ → ℕ → Call A → Option (Run A)
  unfolding is_last is_past count_attempt update_delay sleeptime
  round jitter late next r now n (returns took a) = ends (Outcome.result a) (now + took) n r
  round jitter late next r now n (raises took) = ends Outcome.other_exception (now + took) n r
  round jitter late next r now n (fails took own) =
      let failed = count_attempt r in
      let woken = now + took + pause_of jitter failed n own in
      let rest = next (update_delay failed) (woken + late n) (suc n) in
      if is_last r
      then ends Outcome.too_many_attempts (now + took) n r
      else if is_past failed woken
      then ends Outcome.deadline_exceeded (now + took) n failed
      else rest

-- The loop on fuel, none where it runs out. The n-th call of the function does `call n`, the n-th
-- random number is `jitter n`, and the n-th sleep takes `late n` longer than it asks for.
module _ {A : Type 0} (call : ℕ → Call A) (jitter late : ℕ → ℕ) where
  unfoldable pub loop : ℕ → Retry → ℕ → ℕ → Option (Run A)
  unfolding start
  loop zero r now n = none
  loop (suc fuel) r now n = round jitter late (loop fuel) (start r now) now n (call n)

  -- `__call__`
  unfoldable pub run : ℕ → Retry → ℕ → Option (Run A)
  unfolding reset
  run fuel r now = loop fuel (reset r) now 0
