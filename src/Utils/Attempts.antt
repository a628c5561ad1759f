-- ===== src/Utils/Attempts.antt =====
-- A retried call ends, and how it ends.
use area.Common.{
  ℕ, zero, suc, ◌+◌, ◌-◌, ◌≤◌, ◌<◌, ◌==◌, pos, ◌≡◌, refl, sym, subst, ap, ◌∙◌, arith, inl, inr,
  Bool-cases, Bool, true, false, Option, some,
}
use area.Utils.Retry.{
  Retry, Call, returns, fails, raises, Outcome, result, too_many_attempts, deadline_exceeded,
  other_exception, Run, pause_of, is_last, is_past, count_attempt, update_delay, start, reset,
  round, loop, run,
}

is_last-eq : (r : Retry) (m : ℕ) → r.max_tries ≡ some (pos m) → is_last r ≡ (r.attempts == m)
unfolding is_last
is_last-eq r m t = rw t (ground arith)

module _ {A : Type 0} where
  abbrev pub is_failure : Call A → Bool
  is_failure (fails took own) = true
  is_failure _ = false

  abbrev pub took : Call A → ℕ
  took (returns t a) = t
  took (fails t own) = t
  took (raises t) = t

  -- The outcome that the last call leads to; `all` calls are made before the attempts are used up.
  abbrev pub Said : Bool → Call A → Outcome A → Type 0
  Said all (returns t a) (result b) = a ≡ b
  Said all (raises t) other_exception = Unit {0}
  Said all (fails t own) too_many_attempts = all ≡ true
  Said all (fails t own) deadline_exceeded = Unit {0}
  Said all _ _ = ⊥

  -- How a loop ends that stands at call `n` and has `m` retries.
  pub record Ended (call : ℕ → Call A) (n m : ℕ) (w : Run A) : Type 0 where
    pub within : w.calls ≤ m + 1
    pub called : n < w.calls
    pub said : Said (w.calls == m + 1) (call (w.calls - 1)) w.outcome
    pub failed : (k : ℕ) → n ≤ k → k + 1 < w.calls → is_failure (call k) ≡ true

  -- One call more at the front.
  Ended-earlier :
      (call : ℕ → Call A) (n m : ℕ) (w : Run A)
      → is_failure (call n) ≡ true
      → Ended call (suc n) m w
      → Ended call n m w
  Ended-earlier call n m w h e = record {
    within = e.within;
    called = omega (arith, e.called);
    said = e.said;
    failed = λ k a b. elim (Bool-cases (k == n)) [
      | inl q ↦ ap is_failure (ap call (equal k n q)) ∙ h
      | inr q ↦ e.failed k (ground arith) b
    ];
  }
    where
      equal : (k n : ℕ) → (k == n) ≡ true → k ≡ n
      equal k n q = ground arith

  last-Ended :
      (call : ℕ → Call A) (n m : ℕ) (w : Run A)
      → w.calls ≡ suc n
      → n ≤ m
      → Said (n == m) (call n) w.outcome
      → Ended call n m w
  last-Ended call n m w c h s = record {
    within = omega arith;
    called = omega arith;
    said =
        subst (λ x. Said (x == m + 1) (call (x - 1)) w.outcome) (sym c)
          (subst (λ k. Said (suc n == m + 1) (call k) w.outcome) (before n)
            (subst (λ b. Said b (call n) w.outcome) (same n m) s));
    failed = λ k a b. absurd (omega arith);
  }
    where
      before : (n : ℕ) → n ≡ suc n - 1
      before n = omega arith

      same : (n m : ℕ) → (n == m) ≡ (suc n == m + 1)
      same n m = ground arith

module _ {A : Type 0} (call : ℕ → Call A) (jitter late : ℕ → ℕ) where
  Later : (Retry → ℕ → ℕ → Option (Run A)) → ℕ → ℕ → Type 0
  Later next n m =
      (r : Retry) (now : ℕ)
      → r.max_tries ≡ some (pos m)
      → r.attempts ≡ n
      → n ≤ m
      → (w : Run A) × (next r now n ≡ some w) × Ended call n m w

  round-Ended :
      (next : Retry → ℕ → ℕ → Option (Run A)) (r : Retry) (now n m : ℕ) (c : Call A)
      → call n ≡ c
      → r.max_tries ≡ some (pos m)
      → r.attempts ≡ n
      → n ≤ m
      → Later next (suc n) m
      → (w : Run A) × (round jitter late next r now n c ≡ some w) × Ended call n m w
  unfolding round Later count_attempt update_delay
  round-Ended next r now n m (returns t a) e p q h later =
      (_, refl, last-Ended call n m _ refl h (subst (λ c. Said (n == m) c (result a)) (sym e) refl))
  round-Ended next r now n m (raises t) e p q h later = (
    _,
    refl,
    last-Ended call n m _ refl h (subst (λ c. Said (n == m) c other_exception) (sym e) tt),
  )
  round-Ended next r now n m (fails t own) e p q h later = elim (Bool-cases (is_last r)) [
    | inl l ↦ rw l (
      _,
      refl,
      last-Ended call n m _ refl h
          (subst (λ c. Said (n == m) c too_many_attempts) (sym e) (last l)),
    )
    | inr l ↦ elim (Bool-cases (is_past (count_attempt r) woken)) [
      | inl x ↦
          rw (l, x)
            (
              _,
              refl,
              last-Ended call n m _ refl h
                  (subst (λ c. Said (n == m) c deadline_exceeded) (sym e) tt),
            )
      | inr x ↦
          let (w, same, ended) =
            later (update_delay (count_attempt r)) (woken + late n) p (ap suc q) (more l) in
          rw (l, x) (w, same, Ended-earlier call n m w (ap is_failure e) ended)
    ]
  ]
    where
      woken : ℕ
      woken = now + t + pause_of jitter (count_attempt r) n own

      last : is_last r ≡ true → (n == m) ≡ true
      last l = ap (λ x. x == m) (sym q) ∙ sym (is_last-eq r m p) ∙ l

      more : is_last r ≡ false → suc n ≤ m
      more l = next_le (ap (λ x. x == m) (sym q) ∙ sym (is_last-eq r m p) ∙ l)
        where
          next_le : (n == m) ≡ false → suc n ≤ m
          next_le d = ground arith

  loop-Ended :
      (fuel : ℕ) (r : Retry) (now n m : ℕ)
      → r.max_tries ≡ some (pos m)
      → r.attempts ≡ n
      → n ≤ m
      → m < n + fuel
      → (w : Run A) × (loop call jitter late fuel r now n ≡ some w) × Ended call n m w
  unfolding loop Later start
  loop-Ended zero r now n m t a h k = absurd (omega arith)
  loop-Ended (suc fuel) r now n m t a h k =
      round-Ended (loop call jitter late fuel) (start r now) now n m (call n) refl t a h
        (λ r' now' t' a' h'. loop-Ended fuel r' now' (suc n) m t' a' h' (omega arith))

-- A run that may try `m` times again ends after at most `m + 1` calls, whatever the function does and
-- however long it sleeps: with the last call's result or exception, or with a failure of the run if
-- the last call failed as every call before it; attempts are used up only after `m + 1` calls.
pub run-Ended :
    {A : Type 0} (call : ℕ → Call A) (jitter late : ℕ → ℕ) (r : Retry) (now m : ℕ)
    → r.max_tries ≡ some (pos m)
    → (w : Run A) × (run call jitter late (suc m) r now ≡ some w) × Ended call 0 m w
unfolding run reset
run-Ended call jitter late r now m t =
    loop-Ended call jitter late (suc m) (reset r) now 0 m t refl (omega arith) (omega arith)
