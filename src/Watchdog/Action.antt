-- ===== src/Watchdog/Action.antt =====
-- Methods that mutate an object and may raise `WatchdogError`.
use area.Common.{Bool, if◌then◌else◌}

pub data Outcome (A : Type 0) : Type 0 where
  ok : A → Outcome A
  watchdog_error : Outcome A

abbrev pub Action : Type 0 → Type 0 → Type 0
Action S A = S → Outcome A × S

module _ {S A : Type 0} where
  unfoldable pub pure : A → Action S A
  pure a s = (ok a, s)

  unfoldable pub gets : (S → A) → Action S A
  gets f s = (ok (f s), s)

  -- Reads that may raise.
  unfoldable pub reads : (S → Outcome A) → Action S A
  reads f s = (f s, s)

module _ {S : Type 0} where
  unfoldable pub modify : (S → S) → Action S (Unit {0})
  modify f s = (ok tt, f s)

module _ {S A B : Type 0} where
  abbrev pub resume : Outcome A → (A → Action S B) → Action S B
  resume (ok a) f s = f a s
  resume watchdog_error f s = (watchdog_error, s)

  infixl 5 ◌>>=◌ ◌>>◌
  unfoldable pub ◌>>=◌ : Action S A → (A → Action S B) → Action S B
  ◌>>=◌ m f s = let (x, s') = m s in resume x f s'

  abbrev pub ◌>>◌ : Action S A → Action S B → Action S B
  m >> k = m >>= λ _. k

module _ {S : Type 0} where
  unfoldable pub when : Bool → Action S (Unit {0}) → Action S (Unit {0})
  unfolding pure
  when b m = if b then m else pure tt

module _ {S A : Type 0} where
  abbrev pub recover : Outcome A → Action S A → Action S A
  recover (ok a) handler s = (ok a, s)
  recover watchdog_error handler s = handler s

  -- `try: m except WatchdogError: handler`
  unfoldable pub catch : Action S A → Action S A → Action S A
  catch m handler s = let (x, s') = m s in recover x handler s'
