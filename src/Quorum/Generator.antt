-- ===== src/Quorum/Generator.antt =====
-- Generators that mutate an object and may raise: what was written or yielded before a raise stays.
pub mod Keeps
use area.Common.{List, [], ◌∷◌, ◌++◌, Bool, if◌then◌else◌}

-- `QuorumError`, and the `AssertionError` of an `assert`.
pub data Error : Type 0 where
  quorum_error assertion_error : Error

pub data Result (A : Type 0) : Type 0 where
  ok : A → Result A
  err : Error → Result A

-- The object, and what has been yielded.
pub record Run (S T : Type 0) : Type 0 where
  pub self : S
  pub yielded : List T

abbrev pub Gen : Type 0 → Type 0 → Type 0 → Type 0
Gen S T A = Run S T → Result A × Run S T

module _ {S T A : Type 0} where
  unfoldable pub pure : A → Gen S T A
  pure a r = (ok a, r)

  unfoldable pub raise : Error → Gen S T A
  raise e r = (err e, r)

  unfoldable pub gets : (S → A) → Gen S T A
  gets f r = (ok (f r.self), r)

module _ {S T : Type 0} where
  unfoldable pub modify : (S → S) → Gen S T (Unit {0})
  modify f r = (ok tt, record r { self = f r.self })

  unfoldable pub emit : (S → T) → Gen S T (Unit {0})
  emit f r = (ok tt, record r { yielded = r.yielded ++ f r.self ∷ [] })

module _ {S T A B : Type 0} where
  abbrev pub resume : Result A → (A → Gen S T B) → Gen S T B
  resume (ok a) f r = f a r
  resume (err e) f r = (err e, r)

  infixl 5 ◌>>=◌ ◌>>◌
  unfoldable pub ◌>>=◌ : Gen S T A → (A → Gen S T B) → Gen S T B
  ◌>>=◌ m f r = let (x, r') = m r in resume x f r'

  abbrev pub ◌>>◌ : Gen S T A → Gen S T B → Gen S T B
  m >> k = m >>= λ _. k

module _ {S T : Type 0} where
  -- `if test: body`
  unfoldable pub when : Bool → Gen S T (Unit {0}) → Gen S T (Unit {0})
  unfolding pure
  when b m = if b then m else pure tt

  -- `assert test`
  unfoldable pub require : Bool → Gen S T (Unit {0})
  unfolding pure raise
  require b = if b then pure tt else raise assertion_error

module _ {S T A : Type 0} where
  abbrev pub recover : Result A → Gen S T A → Gen S T A
  recover (ok a) handler r = (ok a, r)
  recover (err quorum_error) handler r = handler r
  recover (err assertion_error) handler r = (err assertion_error, r)

  -- `try: m except QuorumError: handler`
  unfoldable pub catch : Gen S T A → Gen S T A → Gen S T A
  catch m handler r = let (x, r') = m r in recover x handler r'
