-- ===== src/Watchdog/Timeout.antt =====
-- What `_set_timeout` and the opening of the device report, and what they leave alone.
use area.Common.{
  ℤ, ltb_ℤ, ◌≡◌, ◌⊎◌, inl, inr, refl, sym, ap, ◌∙◌, Bool, true, false, ◌&&◌, Option, none, some,
  Bool-cases, arith, if◌then◌else◌,
}
use area.Watchdog.Action.{Outcome, ok, pure, gets, reads, modify, when, ◌>>=◌, ◌>>◌}
use area.Watchdog.Config.{WatchdogConfig}
use area.Watchdog.Device.{
  Driver, Impl, null, open_impl, close_impl, get_timeout, has_set_timeout, is_running,
  can_be_disabled,
}
use area.Watchdog.Facade.{Facade, call, set_impl, check_timeout, apply_timeout, open_with_timeout}
use area.Watchdog.Rules.{>>=-eq-ok, catch-eq-ok, catch-ok, Frames, Frames-bind, frame_rules}

module _ (drv : Driver) (get_impl_of : WatchdogConfig drv.Settings → Impl drv.State) where
  open drv use {Settings, State, eq_settings}

  abbrev pub W : Type 0
  W = Facade drv get_impl_of

  abbrev pub of_config : W → WatchdogConfig Settings
  of_config w = w.config

  pub Frames-call :
      (f : Impl State → Outcome (Unit {0}) × Impl State) → Frames of_config (call drv get_impl_of f)
  unfolding call
  Frames-call f = record { at = λ w. refl }

  pub Frames-set_impl : (impl : Impl State) → Frames of_config (set_impl drv get_impl_of impl)
  unfolding modify
  Frames-set_impl impl = record { at = λ w. refl }

  pub ruleset rules = (frame_rules, Frames-call, Frames-set_impl)

  Frames-check_timeout : (t : ℤ) → Frames of_config (check_timeout drv get_impl_of t)
  unfolding check_timeout
  Frames-check_timeout t = search rules depth 9

  Frames-apply_timeout : Frames of_config (apply_timeout drv get_impl_of)
  unfolding apply_timeout
  Frames-apply_timeout = search (rules, Frames-check_timeout) depth 9

  pub Frames-open : Frames of_config (open_with_timeout drv get_impl_of)
  unfolding open_with_timeout
  Frames-open = search (rules, Frames-apply_timeout) depth 9

  -- What `_set_timeout` reports is what the device reports, unless there is no device any more.
  abbrev pub Measured : Option ℤ → W → Type 0
  Measured actual w =
      (w.impl ≡ null) ⊎ ((t : ℤ) × (actual ≡ some t) × (get_timeout drv w.impl ≡ ok t))

  -- The device is closed and given up.
  given_up-Measured :
      (w : W) {actual : Option ℤ} {w' : W}
      → (do call drv get_impl_of (close_impl drv); set_impl drv get_impl_of null; pure none) w
        ≡ (ok actual, w')
      → w'.impl ≡ null
  unfolding modify pure
  given_up-Measured w {actual} {w'} h =
      let (_, _, h1) = >>=-eq-ok (call drv get_impl_of (close_impl drv)) _ w h in
      let (_, _, h2) = >>=-eq-ok (set_impl drv get_impl_of null) _ _ h1 in
      sym (ap (λ (x : Outcome (Option ℤ) × W). x.1.impl) h2)

  kept-Measured :
      (t : ℤ) (w : W) {actual : Option ℤ} {w' : W}
      → get_timeout drv w.impl ≡ ok t
      → pure {S = W} (some t) w ≡ (ok actual, w')
      → Measured actual w'
  unfolding pure
  kept-Measured t w {actual} m h = inr (
    t,
    reported actual (sym (ap (λ (x : Outcome (Option ℤ) × W). x.0) h)),
    ap (λ (x : Outcome (Option ℤ) × W). get_timeout drv x.1.impl) (sym h) ∙ m,
  )
    where
      reported : (a : Option ℤ) → ok a ≡ ok (some t) → a ≡ some t
      reported a e = ground arith

  check_timeout-Measured :
      (t : ℤ) (w : W) {actual : Option ℤ} {w' : W}
      → get_timeout drv w.impl ≡ ok t
      → check_timeout drv get_impl_of t w ≡ (ok actual, w')
      → Measured actual w'
  unfolding check_timeout gets reads
  check_timeout-Measured t w {actual} {w'} m h =
      let (w1, e1, h1) = >>=-eq-ok (gets (λ w. w)) _ w h in branch w1 h1
    where
      branch :
          (w1 : W)
          → (if is_running drv w1.impl && ltb_ℤ t w1.config.loop_wait
                then (do
                  stops ← reads (λ w. can_be_disabled drv w.impl)
                  if stops
                      then (do
                        call drv get_impl_of (close_impl drv)
                        set_impl drv get_impl_of null
                        pure none)
                      else pure (some t))
                else pure (some t))
              w
            ≡ (ok actual, w')
          → Measured actual w'
      branch w1 h1 = elim (Bool-cases (is_running drv w1.impl && ltb_ℤ t w1.config.loop_wait)) [
        | inl e ↦
            let (stops, _, h2) =
              >>=-eq-ok (reads (λ w. can_be_disabled drv w.impl)) _ w (rw e at h1) in
            stopped stops h2
        | inr e ↦ kept-Measured t w m (rw e at h1)
      ]
        where
          stopped :
              (stops : Bool)
              → (if stops
                    then (do
                      call drv get_impl_of (close_impl drv)
                      set_impl drv get_impl_of null
                      pure none)
                    else pure (some t))
                  w
                ≡ (ok actual, w')
              → Measured actual w'
          stopped true h2 = inl (given_up-Measured w h2)
          stopped false h2 = kept-Measured t w m h2

  apply_timeout-Measured :
      (w : W) {actual : Option ℤ} {w' : W}
      → apply_timeout drv get_impl_of w ≡ (ok actual, w')
      → Measured actual w'
  unfolding apply_timeout reads
  apply_timeout-Measured w h =
      let (w1, _, h1) = >>=-eq-ok (gets (λ w. w)) _ w h in
      let (_, _, h2) = >>=-eq-ok (reads (λ w. has_set_timeout drv w.impl)) _ _ h1 in
      let (_, _, h3) = >>=-eq-ok (when _ _) _ _ h2 in
      let (t, e, h4) = >>=-eq-ok (reads (λ w. get_timeout drv w.impl)) _ _ h3 in
      check_timeout-Measured t _ e h4

  -- The device is given up after a failure.
  dropped-Measured :
      (w : W) {actual : Option ℤ} {w' : W}
      → (do
        set_impl drv get_impl_of null
        actual ← reads (λ w. get_timeout drv w.impl)
        pure (some actual))
          w
        ≡ (ok actual, w')
      → w'.impl ≡ null
  unfolding modify reads pure
  dropped-Measured w h =
      let (_, _, h1) = >>=-eq-ok (set_impl drv get_impl_of null) _ w h in
      let (_, _, h2) = >>=-eq-ok (reads (λ w. get_timeout drv w.impl)) _ _ h1 in
      sym (ap (λ (x : Outcome (Option ℤ) × W). x.1.impl) h2)

  pub open-Measured :
      (w : W) {actual : Option ℤ} {w' : W}
      → open_with_timeout drv get_impl_of w ≡ (ok actual, w')
      → Measured actual w'
  unfolding open_with_timeout
  open-Measured w h = elim (catch-eq-ok _ _ w h) [
    | inl (e, s) ↦
        let (_, _, h1) = >>=-eq-ok (call drv get_impl_of (open_impl drv)) _ w (λ i. (e i, s i)) in
        apply_timeout-Measured _ h1
    | inr k ↦ inl (dropped-Measured _ k)
  ]
