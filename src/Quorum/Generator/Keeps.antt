-- ===== src/Quorum/Generator/Keeps.antt =====
-- Invariants of generators, one rule for each way to build one.
use area.Common.{◌≡◌, refl, Bool, true, false, if◌then◌else◌}
use area.Quorum.Generator.{
  quorum_error, assertion_error, Result, ok, err, Run, Gen, pure, gets, when, require, catch,
  recover, resume, ◌>>=◌,
}

module _ {S T : Type 0} where
  -- What holds behind an outcome: `P` after a return, `E` after a `QuorumError`.
  abbrev pub Outcome : {A : Type 0} → (P E : Run S T → Type 0) → Result A → Run S T → Type 0
  Outcome P E (ok a) r = P r
  Outcome P E (err quorum_error) r = E r
  Outcome P E (err assertion_error) r = Unit

  pub record Keeps {A : Type 0} (P E : Run S T → Type 0) (m : Gen S T A) : Type 0 where
    pub at : (r : Run S T) → P r → Outcome P E (m r).0 (m r).1

module _ {S T A : Type 0} {P E : Run S T → Type 0} where
  pub Keeps-pure : (a : A) → Keeps P E (pure a)
  unfolding pure
  Keeps-pure a = record { at = λ r h. h }

  pub Keeps-gets : (f : S → A) → Keeps P E (gets f)
  unfolding gets
  Keeps-gets f = record { at = λ r h. h }

  pub Keeps-if :
      (b : Bool) (m n : Gen S T A) → Keeps P E m → Keeps P E n → Keeps P E (if b then m else n)
  Keeps-if true m n km kn = km
  Keeps-if false m n km kn = kn

module _ {S T A B : Type 0} {P E : Run S T → Type 0} where
  resume-Outcome :
      (x : Result A) (f : A → Gen S T B) (r : Run S T)
      → Outcome P E x r
      → ((a : A) → Keeps P E (f a))
      → Outcome P E (resume x f r).0 (resume x f r).1
  resume-Outcome (ok a) f r h kf = (kf a).at r h
  resume-Outcome (err quorum_error) f r h kf = h
  resume-Outcome (err assertion_error) f r h kf = tt

  pub Keeps-bind :
      (m : Gen S T A) (f : A → Gen S T B)
      → Keeps P E m
      → ((a : A) → Keeps P E (f a))
      → Keeps P E (m >>= f)
  unfolding ◌>>=◌
  Keeps-bind m f km kf = record { at = λ r h. resume-Outcome (m r).0 f (m r).1 (km.at r h) kf }

  -- From one state: the first part there, and the rest from wherever it ends.
  pub bind-Outcome :
      (m : Gen S T A) (f : A → Gen S T B) (r : Run S T)
      → Outcome P E (m r).0 (m r).1
      → ((a : A) → Keeps P E (f a))
      → Outcome P E ((m >>= f) r).0 ((m >>= f) r).1
  unfolding ◌>>=◌
  bind-Outcome m f r h kf = resume-Outcome (m r).0 f (m r).1 h kf

module _ {S T A : Type 0} {P E : Run S T → Type 0} where
  -- The rest of a block may use what the object is.
  pub Keeps-read :
      (f : S → Gen S T A)
      → ((r : Run S T) → P r → Outcome P E (f r.self r).0 (f r.self r).1)
      → Keeps P E (gets (λ self. self) >>= f)
  unfolding gets ◌>>=◌
  Keeps-read f h = record { at = h }

module _ {S T A : Type 0} (P E : Run S T → Type 0) where
  pub read-Outcome :
      (f : S → Gen S T A) (r : Run S T)
      → Outcome P E (f r.self r).0 (f r.self r).1
      → Outcome P E ((gets (λ self. self) >>= f) r).0 ((gets (λ self. self) >>= f) r).1
  unfolding gets ◌>>=◌
  read-Outcome f r h = h

module _ {S T : Type 0} (P E : Run S T → Type 0) where
  pub when-Outcome :
      (b : Bool) (m : Gen S T (Unit {0})) (r : Run S T)
      → P r
      → (b ≡ true → Outcome P E (m r).0 (m r).1)
      → Outcome P E (when b m r).0 (when b m r).1
  unfolding when pure
  when-Outcome true m r h k = k refl
  when-Outcome false m r h k = h

module _ {S T : Type 0} {P E : Run S T → Type 0} where
  pub Keeps-when : (b : Bool) (m : Gen S T (Unit {0})) → Keeps P E m → Keeps P E (when b m)
  unfolding when
  Keeps-when true m k = k
  Keeps-when false m k = Keeps-pure tt

  pub Keeps-require : (b : Bool) → Keeps P E (require b)
  unfolding require
  Keeps-require true = record { at = λ r h. h }
  Keeps-require false = record { at = λ r h. tt }

module _ {S T A : Type 0} (P E F : Run S T → Type 0) where
  recover-Outcome :
      (x : Result A) (handler : Gen S T A) (r : Run S T)
      → Outcome P E x r
      → ((s : Run S T) → E s → Outcome P F (handler s).0 (handler s).1)
      → Outcome P F (recover x handler r).0 (recover x handler r).1
  recover-Outcome (ok a) handler r h k = h
  recover-Outcome (err quorum_error) handler r h k = k r h
  recover-Outcome (err assertion_error) handler r h k = tt

module _ {S T A : Type 0} (P E F : Run S T → Type 0) where
  pub Outcome-weaken :
      (x : Result A) (r : Run S T) → Outcome P E x r → ((s : Run S T) → E s → F s) → Outcome P F x r
  Outcome-weaken (ok a) r h k = h
  Outcome-weaken (err quorum_error) r h k = k r h
  Outcome-weaken (err assertion_error) r h k = tt

module _ {S T A : Type 0} {P E F : Run S T → Type 0} where
  -- The handler starts from what holds behind the `QuorumError`.
  pub Keeps-catch :
      (m handler : Gen S T A)
      → Keeps P E m
      → ((r : Run S T) → E r → Outcome P F (handler r).0 (handler r).1)
      → Keeps P F (catch m handler)
  unfolding catch
  Keeps-catch m handler km k = record {
    at = λ r h. recover-Outcome P E F (m r).0 handler (m r).1 (km.at r h) k;
  }

pub ruleset keeps_rules = (Keeps-pure, Keeps-gets, Keeps-if, Keeps-bind, Keeps-when, Keeps-require)
