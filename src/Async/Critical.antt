-- ===== src/Async/Critical.antt =====
-- `CriticalTask`. A method is one step, since its callers hold the lock of the task.
use area.Common.{
  ℕ, suc, ◌≡◌, refl, ◌⊎◌, inl, inr, Bool, true, false, Option, none, some, List, [], ◌∷◌,
  if◌then◌else◌,
}

pub record CriticalTask (R : Type 0) : Type 0 where
  pub is_cancelled : Bool
  pub result : Option R

module _ {R : Type 0} where
  unfoldable pub new_task : CriticalTask R
  new_task = record { is_cancelled = false; result = none }

  unfoldable pub reset : CriticalTask R → CriticalTask R
  reset task = record { is_cancelled = false; result = none }

  unfoldable pub cancel_task : CriticalTask R → Bool × CriticalTask R
  cancel_task task = elim task.result [
    | none ↦ (true, record task { is_cancelled = true })
    | some r ↦ (false, task)
  ]

  unfoldable pub complete : Option R → CriticalTask R → CriticalTask R
  complete result task = record task { result = result }

  -- The background thread runs the task unless it is cancelled, and tells whether it did.
  unfoldable pub perform : Option R → CriticalTask R → Bool × CriticalTask R
  perform result task = if task.is_cancelled then (false, task) else (true, complete result task)

-- What the two threads attempt while the task is not reset.
pub data Attempt (R : Type 0) : Type 0 where
  cancelling : Attempt R
  performing : R → Attempt R

-- How many cancellations were granted and how many times the task ran.
pub record Tally : Type 0 where
  pub granted : ℕ
  pub performed : ℕ

abbrev count : Bool → ℕ → ℕ
count true n = suc n
count false n = n

module _ {R : Type 0} where
  unfoldable pub attempt : Attempt R → CriticalTask R × Tally → CriticalTask R × Tally
  unfolding cancel_task perform complete
  attempt cancelling (task, tally) =
      let (b, task') = cancel_task task in (task', record tally { granted = count b tally.granted })
  attempt (performing r) (task, tally) =
      let (b, task') = perform (some r) task in
      (task', record tally { performed = count b tally.performed })

  unfoldable pub attempt_all : List (Attempt R) → CriticalTask R × Tally → CriticalTask R × Tally
  attempt_all [] s = s
  attempt_all (a ∷ ops) s = attempt_all ops (attempt a s)

  -- A task that is neither cancelled nor done has no history; the other two exclude each other.
  data Consistent : CriticalTask R → Tally → Type 0 where
    untouched :
        Consistent
          (record { is_cancelled = false; result = none })
          (record { granted = 0; performed = 0 })
    cancelled :
        (n : ℕ)
        → Consistent
            (record { is_cancelled = true; result = none })
            (record { granted = n; performed = 0 })
    done :
        (r : R) (n : ℕ)
        → Consistent
            (record { is_cancelled = false; result = some r })
            (record { granted = 0; performed = n })

  attempt-Consistent :
      (a : Attempt R) (task : CriticalTask R) (tally : Tally)
      → Consistent task tally
      → Consistent (attempt a (task, tally)).0 (attempt a (task, tally)).1
  unfolding attempt cancel_task perform complete
  attempt-Consistent cancelling _ _ untouched = cancelled 1
  attempt-Consistent cancelling _ _ (cancelled n) = cancelled (suc n)
  attempt-Consistent cancelling _ _ (done r n) = done r n
  attempt-Consistent (performing r) _ _ untouched = done r 1
  attempt-Consistent (performing r) _ _ (cancelled n) = cancelled n
  attempt-Consistent (performing r) _ _ (done _ n) = done r (suc n)

  attempts-Consistent :
      (ops : List (Attempt R)) (task : CriticalTask R) (tally : Tally)
      → Consistent task tally
      → Consistent (attempt_all ops (task, tally)).0 (attempt_all ops (task, tally)).1
  unfolding attempt_all
  attempts-Consistent [] task tally k = k
  attempts-Consistent (a ∷ ops) task tally k =
      attempts-Consistent ops (attempt a (task, tally)).0 (attempt a (task, tally)).1
        (attempt-Consistent a task tally k)

  exclusive :
      (task : CriticalTask R) (tally : Tally)
      → Consistent task tally
      → (tally.granted ≡ 0) ⊎ (tally.performed ≡ 0)
  exclusive _ _ untouched = inl refl
  exclusive _ _ (cancelled n) = inr refl
  exclusive _ _ (done r n) = inl refl

  -- However the attempts of the two threads interleave on a new task, either no cancellation was
  -- granted or the task never ran, provided that a task that runs has a result.
  pub cancelled-or-performed :
      (ops : List (Attempt R))
      → (let tally = (attempt_all ops (new_task, record { granted = 0; performed = 0 })).1 in
          (tally.granted ≡ 0) ⊎ (tally.performed ≡ 0))
  unfolding new_task
  cancelled-or-performed ops = exclusive _ _ (attempts-Consistent ops _ _ untouched)
