-- ===== src/Utils/Deadline.antt =====
-- A retried call with a deadline ends, also if the number of attempts is not limited.
use area.Common.{
  ℕ, zero, suc, ◌+◌, ◌-◌, ◌*◌, ◌≤◌, ◌<◌, ltb, leb, ◌≡◌, refl, sym, subst, ap, ◌∙◌, arith, inl, inr,
  Bool-cases, Bool, true, false, Option, none, some,
}
use area.Utils.Retry.{
  Retry, Call, returns, fails, raises, Run, pause_of, is_last, is_past, count_attempt, update_delay,
  sleeptime, start, stop_of, reset, round, loop, run, min,
}
use area.Utils.Attempts.{took}

-- What the sleep before a call takes beyond what it asks for.
abbrev pub late_before : (ℕ → ℕ) → ℕ → ℕ
late_before late zero = 0
late_before late (suc n) = late n

module _ {A : Type 0} where
  -- An exception with a sleep time of its own asks for a pause that is not empty.
  abbrev pub pauses : Call A → Bool
  pauses (fails t (some s)) = ltb 0 s
  pauses _ = true

  -- The last call starts no later than the stop time, or as much later as the sleep before it has taken
  -- longer than it was to.
  pub record InTime (call : ℕ → Call A) (late : ℕ → ℕ) (n stop : ℕ) (w : Run A) : Type 0 where
    pub called : n < w.calls
    pub in_time : w.time ≤ stop + late_before late (w.calls - 1) + took (call (w.calls - 1))

  InTime-earlier :
      (call : ℕ → Call A) (late : ℕ → ℕ) (n stop : ℕ) (w : Run A)
      → InTime call late (suc n) stop w
      → InTime call late n stop w
  InTime-earlier call late n stop w e = record {
    called = omega (arith, e.called);
    in_time = e.in_time;
  }

  last-InTime :
      (call : ℕ → Call A) (late : ℕ → ℕ) (now n stop : ℕ) (c : Call A) (w : Run A)
      → call n ≡ c
      → now ≤ stop + late_before late n
      → w.calls ≡ suc n
      → w.time ≡ now + took c
      → InTime call late n stop w
  last-InTime call late now n stop c w e h p q = record {
    called = omega arith;
    in_time =
        subst (λ k. w.time ≤ stop + late_before late k + took (call k)) (before n w.calls p)
          (subst (λ c. w.time ≤ stop + late_before late n + took c) (sym e) (omega arith));
  }
    where
      before : (n calls : ℕ) → calls ≡ suc n → n ≡ calls - 1
      before n calls p = omega arith

-- The next pause is not empty, and the stop time is known.
pub record IsReady (stop : ℕ) (r : Retry) : Type 0 where
  pub stops : r.cur_stoptime ≡ some stop
  pub delays : 0 < r.cur_delay
  pub grows : 0 < r.backoff
  pub bounded : 0 < r.max_delay

next_delay : (a b m : ℕ) → 0 < a → 0 < b → 0 < m → 0 < min (a * b) m
next_delay a b m h k l = ground (arith, positive a b h k)
  where
    positive : (a b : ℕ) → 0 < a → 0 < b → 0 < a * b
    positive zero b h k = absurd (omega arith)
    positive (suc a) b h k = grind arith

failed-IsReady :
    (stop : ℕ) (r : Retry) → IsReady stop r → IsReady stop (update_delay (count_attempt r))
unfolding update_delay count_attempt
failed-IsReady stop r h = record {
  stops = h.stops;
  delays = next_delay r.cur_delay r.backoff r.max_delay h.delays h.grows h.bounded;
  grows = h.grows;
  bounded = h.bounded;
}

start-IsReady : (stop now : ℕ) (r : Retry) → IsReady stop r → IsReady stop (start r now)
unfolding start
start-IsReady stop now r h = record {
  stops = ap (stop_of now r.deadline) h.stops;
  delays = h.delays;
  grows = h.grows;
  bounded = h.bounded;
}

is_past-stop :
    (stop time : ℕ) (r : Retry)
    → r.cur_stoptime ≡ some stop
    → is_past (count_attempt r) time ≡ leb stop time
unfolding is_past count_attempt
is_past-stop stop time r h = rw h refl

module _ {A : Type 0} (call : ℕ → Call A) (jitter late : ℕ → ℕ) where
  pause_of-positive :
      (stop n t : ℕ) (own : Option ℕ) (r : Retry)
      → IsReady stop r
      → pauses {A = A} (fails t own) ≡ true
      → 0 < pause_of jitter (count_attempt r) n own
  unfolding count_attempt sleeptime
  pause_of-positive stop n t none r h p = omega (arith, h.delays)
  pause_of-positive stop n t (some s) r h p = ground arith

  Later : (Retry → ℕ → ℕ → Option (Run A)) → ℕ → ℕ → ℕ → Type 0
  Later next stop n from =
      (r : Retry) (now : ℕ)
      → IsReady stop r
      → from < now
      → from < stop
      → now ≤ stop + late_before late n
      → (w : Run A) × (next r now n ≡ some w) × InTime call late n stop w

  round-InTime :
      (next : Retry → ℕ → ℕ → Option (Run A)) (r : Retry) (now n stop : ℕ) (c : Call A)
      → call n ≡ c
      → pauses c ≡ true
      → IsReady stop r
      → now ≤ stop + late_before late n
      → Later next stop (suc n) now
      → (w : Run A) × (round jitter late next r now n c ≡ some w) × InTime call late n stop w
  unfolding round Later
  round-InTime next r now n stop (returns t a) e p h k later =
      (_, refl, last-InTime call late now n stop (returns t a) _ e k refl refl)
  round-InTime next r now n stop (raises t) e p h k later =
      (_, refl, last-InTime call late now n stop (raises t) _ e k refl refl)
  round-InTime next r now n stop (fails t own) e p h k later = elim (Bool-cases (is_last r)) [
    | inl l ↦ rw l (_, refl, last-InTime call late now n stop (fails t own) _ e k refl refl)
    | inr l ↦ elim (Bool-cases (is_past (count_attempt r) woken)) [
      | inl x ↦ rw (l, x) (_, refl, last-InTime call late now n stop (fails t own) _ e k refl refl)
      | inr x ↦
          let (w, same, timely) =
            later (update_delay (count_attempt r)) (woken + late n) (failed-IsReady stop r h)
              (omega (arith, after)) (omega (arith, after, soon x)) (omega (arith, soon x)) in
          rw (l, x) (w, same, InTime-earlier call late n stop w timely)
    ]
  ]
    where
      woken : ℕ
      woken = now + t + pause_of jitter (count_attempt r) n own

      after : now < woken
      after = omega (arith, pause_of-positive stop n t own r h p)

      soon : is_past (count_attempt r) woken ≡ false → woken ≤ stop
      soon x = below stop woken (sym (is_past-stop stop woken r h.stops) ∙ x)
        where
          below : (stop time : ℕ) → leb stop time ≡ false → time ≤ stop
          below stop time x = ground arith

  loop-InTime :
      (fuel : ℕ) (r : Retry) (now n stop : ℕ)
      → ((k : ℕ) → pauses (call k) ≡ true)
      → IsReady stop (start r now)
      → now ≤ stop + late_before late n
      → 0 < fuel
      → stop < now + fuel
      → (w : Run A) × (loop call jitter late fuel r now n ≡ some w) × InTime call late n stop w
  unfolding loop Later
  loop-InTime zero r now n stop p h k z f = absurd (omega arith)
  loop-InTime (suc fuel) r now n stop p h k z f =
      round-InTime (loop call jitter late fuel) (start r now) now n stop (call n) refl (p n) h k
        (λ r' now' h' later before soon.
          loop-InTime fuel r' now' (suc n) stop p (start-IsReady stop now' r' h') soon (omega arith)
            (omega arith))

-- A run with a deadline ends whatever the number of attempts it may make and however long it sleeps,
-- and its last call starts no later than the deadline, or only by as much later as the sleep before it
-- has taken longer than it was to, if no pause is to be empty: the first delay, its factor, the limit of the delay
-- and the exceptions' own sleep times are not zero.
pub run-InTime :
    {A : Type 0} (call : ℕ → Call A) (jitter late : ℕ → ℕ) (r : Retry) (now d : ℕ)
    → r.deadline ≡ some d
    → 0 < r.delay
    → 0 < r.backoff
    → 0 < r.max_delay
    → ((k : ℕ) → pauses (call k) ≡ true)
    → (w : Run A) × (run call jitter late (suc d) r now ≡ some w) × InTime call late 0 (now + d) w
unfolding run reset start
run-InTime call jitter late r now d e a b c p =
    loop-InTime call jitter late (suc d) (reset r) now 0 (now + d) p
      (record { stops = ap (λ d. stop_of now d none) e; delays = a; grows = b; bounded = c })
      (omega arith) (omega arith) (omega arith)
