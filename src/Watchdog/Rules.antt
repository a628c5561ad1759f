-- ===== src/Watchdog/Rules.antt =====
-- Inversion and frame rules for the methods.
use area.Common.{◌≡◌, ◌⊎◌, refl, inl, inr, ap, ◌∙◌, Bool, true, false, if◌then◌else◌, arith}
use area.Watchdog.Action.{
  Outcome, ok, watchdog_error, Action, pure, gets, reads, when, catch, resume, recover, ◌>>=◌,
}

module _ {S A B : Type 0} where
  resume-eq-ok :
      (x : Outcome A) (f : A → Action S B) (s1 : S) {b : B} {s' : S}
      → resume x f s1 ≡ (ok b, s')
      → (a : A) × (x ≡ ok a) × (f a s1 ≡ (ok b, s'))
  resume-eq-ok (ok a) f s1 h = (a, refl, h)
  resume-eq-ok watchdog_error f s1 h = cc

  -- The parts of a sequence that returned.
  pub >>=-eq-ok :
      (m : Action S A) (f : A → Action S B) (s : S) {b : B} {s' : S}
      → (m >>= f) s ≡ (ok b, s')
      → (a : A) × ((m s).0 ≡ ok a) × (f a (m s).1 ≡ (ok b, s'))
  unfolding ◌>>=◌
  >>=-eq-ok m f s h = resume-eq-ok (m s).0 f (m s).1 h

  -- A sequence goes on after an action that returned.
  pub >>=-ok :
      (m : Action S A) (f : A → Action S B) (s : S) (a : A)
      → (m s).0 ≡ ok a
      → (m >>= f) s ≡ f a (m s).1
  unfolding ◌>>=◌
  >>=-ok m f s a h = ap (λ x. resume x f (m s).1) h

module _ {S A : Type 0} where
  recover-eq-ok :
      (x : Outcome A) (handler : Action S A) (s1 : S) {b : A} {s' : S}
      → recover x handler s1 ≡ (ok b, s')
      → (((x ≡ ok b) × (s1 ≡ s')) ⊎ (handler s1 ≡ (ok b, s')))
  recover-eq-ok (ok a) handler s1 h = inl (ground arith, ground arith)
  recover-eq-ok watchdog_error handler s1 h = inr h

  pub catch-eq-ok :
      (m handler : Action S A) (s : S) {b : A} {s' : S}
      → catch m handler s ≡ (ok b, s')
      → ((((m s).0 ≡ ok b) × ((m s).1 ≡ s')) ⊎ (handler (m s).1 ≡ (ok b, s')))
  unfolding catch
  catch-eq-ok m handler s h = recover-eq-ok (m s).0 handler (m s).1 h

  -- A handler that always returns makes the whole return.
  pub catch-ok :
      (m handler : Action S A) (s : S)
      → ((t : S) → (b : A) × ((handler t).0 ≡ ok b))
      → (b : A) × ((catch m handler s).0 ≡ ok b)
  unfolding catch
  catch-ok m handler s h = go (m s).0 (m s).1
    where
      go : (x : Outcome A) (t : S) → (b : A) × ((recover x handler t).0 ≡ ok b)
      go (ok a) t = (a, refl)
      go watchdog_error t = h t

-- A part of the object that an action leaves alone, whatever its outcome.
pub record Frames {S V A : Type 0} (f : S → V) (m : Action S A) : Type 0 where
  pub at : (s : S) → f (m s).1 ≡ f s

module _ {S V A : Type 0} {f : S → V} where
  pub Frames-pure : (a : A) → Frames f (pure a)
  unfolding pure
  Frames-pure a = record { at = λ s. refl }

  pub Frames-gets : (g : S → A) → Frames f (gets g)
  unfolding gets
  Frames-gets g = record { at = λ s. refl }

  pub Frames-reads : (g : S → Outcome A) → Frames f (reads g)
  unfolding reads
  Frames-reads g = record { at = λ s. refl }

  pub Frames-if :
      (b : Bool) (m n : Action S A) → Frames f m → Frames f n → Frames f (if b then m else n)
  Frames-if true m n km kn = km
  Frames-if false m n km kn = kn

  pub Frames-catch :
      (m handler : Action S A) → Frames f m → Frames f handler → Frames f (catch m handler)
  unfolding catch
  Frames-catch m handler km kh = record { at = λ s. go (m s).0 (m s).1 ∙ km.at s }
    where
      go : (x : Outcome A) (t : S) → f (recover x handler t).1 ≡ f t
      go (ok a) t = refl
      go watchdog_error t = kh.at t

module _ {S V A B : Type 0} {f : S → V} where
  pub Frames-bind :
      (m : Action S A) (k : A → Action S B)
      → Frames f m
      → ((a : A) → Frames f (k a))
      → Frames f (m >>= k)
  unfolding ◌>>=◌
  Frames-bind m k km kk = record { at = λ s. go (m s).0 (m s).1 ∙ km.at s }
    where
      go : (x : Outcome A) (t : S) → f (resume x k t).1 ≡ f t
      go (ok a) t = (kk a).at t
      go watchdog_error t = refl

module _ {S V : Type 0} {f : S → V} where
  pub Frames-when : (b : Bool) (m : Action S (Unit {0})) → Frames f m → Frames f (when b m)
  unfolding when
  Frames-when true m k = k
  Frames-when false m k = Frames-pure tt

pub ruleset frame_rules =
    (Frames-pure, Frames-gets, Frames-reads, Frames-if, Frames-catch, Frames-bind, Frames-when)
