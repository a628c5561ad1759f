-- ===== src/Watchdog/Contract.antt =====
-- What a required watchdog guarantees once it is activated.
use area.Common.{
  ℤ, pos, negsuc, ltb_ℤ, ◌≤ℤ◌, ◌≡◌, ◌⊎◌, inl, inr, refl, sym, ap, ◌∙◌, subst, Bool, true, false,
  ◌&&◌, ◌||◌, not, Option, some, Bool-cases, arith, if◌then◌else◌,
}
use area.Watchdog.Action.{Outcome, ok, Action, pure, gets, reads, modify, when, catch, ◌>>=◌, ◌>>◌}
use area.Watchdog.Config.{Mode, WatchdogConfig, eq_mode, timeout, timing_slack}
use area.Watchdog.Device.{
  Driver, Impl, null, device, open_impl, has_set_timeout, get_timeout, is_running,
}
use area.Watchdog.Facade.{
  Facade, call, set_impl, cannot_stop, open_with_timeout, apply_timeout, check_timeout, is_too_long,
  verdict, activate_impl, activate,
}
use area.Watchdog.Rules.{>>=-eq-ok}
use area.Watchdog.Timeout.{Measured, Frames-open, open-Measured}

module _ (drv : Driver) (get_impl_of : WatchdogConfig drv.Settings → Impl drv.State) where
  open drv use {Settings, State, device_timeout, device_running}

  abbrev W : Type 0
  W = Facade drv get_impl_of

  -- A running device that fires in time.
  abbrev pub Guarded : WatchdogConfig Settings → Impl State → Type 0
  Guarded c impl =
      (d : State) × (t : ℤ) × (impl ≡ device d)
      × (device_running d ≡ true)
      × (device_timeout d ≡ ok t)
      × ((t ≡ pos 0) ⊎ (t ≤ℤ timeout c))

  not_long : (t limit : ℤ) → is_too_long (some t) limit ≡ false → (t ≡ pos 0) ⊎ (t ≤ℤ limit)
  unfolding is_too_long
  not_long (pos n) limit h = ground arith
  not_long (negsuc n) limit h = ground arith

  device_in_time :
      (c : WatchdogConfig Settings) (impl : Impl State) (actual : Option ℤ)
      → (impl ≡ null) ⊎ ((t : ℤ) × (actual ≡ some t) × (get_timeout drv impl ≡ ok t))
      → is_running drv impl ≡ true
      → is_too_long actual (timeout c) ≡ false
      → Guarded c impl
  unfolding get_timeout is_running
  device_in_time c null actual m r s = cc
  device_in_time c (device d) actual (inl e) r s = cc
  device_in_time c (device d) actual (inr (t, a, e)) r s =
      (d, t, refl, r, e, not_long t (timeout c) (rw a at s))

  -- What the verdict on a required watchdog rests on.
  verdict-true :
      (actual : Option ℤ) (w : W)
      → w.config.mode ≡ Mode.required
      → verdict drv get_impl_of actual w ≡ true
      → (is_running drv w.impl ≡ true) × (is_too_long actual (timeout w.config) ≡ false)
  unfolding verdict eq_mode
  verdict-true actual w r h =
      split (is_running drv w.impl) (is_too_long actual (timeout w.config))
        (eq_mode w.config.mode Mode.required) (ap (λ m. eq_mode m Mode.required) r) h
    where
      split :
          (running long needed : Bool)
          → needed ≡ true
          → (if (not running || long) && needed
              then false
              else if not running && needed
              then false
              else true)
            ≡ true
          → (running ≡ true) × (long ≡ false)
      split true false needed n h = (refl, refl)
      split true true true n h = cc
      split true true false n h = cc
      split false long true n h = cc
      split false long false n h = cc

  -- What is left to do once the configuration is active.
  abbrev judge : Action W Bool
  judge = do
    actual ← open_with_timeout drv get_impl_of
    reads (cannot_stop drv get_impl_of)
    gets (verdict drv get_impl_of actual)

  injected : {b : Bool} → ok b ≡ ok true → b ≡ true
  injected e = ground arith

  opened :
      (w w' : W)
      → w.config.mode ≡ Mode.required
      → judge w ≡ (ok true, w')
      → Guarded w.config w'.impl
  unfolding gets reads
  opened w w' r h =
      let (actual, e, h1) = >>=-eq-ok (open_with_timeout drv get_impl_of) _ w h in
      let (_, _, h2) = >>=-eq-ok (reads (cannot_stop drv get_impl_of)) _ _ h1 in
      judged actual (open_with_timeout drv get_impl_of w).1 ((Frames-open drv get_impl_of).at w)
        (open-Measured drv get_impl_of w (λ i. (e i, (open_with_timeout drv get_impl_of w).1))) h2
    where
      judged :
          (actual : Option ℤ) (w1 : W)
          → w1.config ≡ w.config
          → Measured drv get_impl_of actual w1
          → gets (verdict drv get_impl_of actual) w1 ≡ (ok true, w')
          → Guarded w.config w'.impl
      judged actual w1 c m h2 =
          let same = ap (λ (x : Outcome Bool × W). x.1) h2 in
          let (r1, s1) =
            verdict-true actual w1 (ap (λ (c : WatchdogConfig Settings). c.mode) c ∙ r)
              (injected (ap (λ (x : Outcome Bool × W). x.0) h2)) in
          subst (λ (x : W). Guarded w.config x.impl) same
            (subst (λ c. Guarded c w1.impl) c (device_in_time w1.config w1.impl actual m r1 s1))

  judge-null :
      (w : W)
      → judge (record w { impl = null }) ≡ (
        ok (verdict drv get_impl_of (some (pos 1000000000)) (record w { impl = null })),
        record w { impl = null },
      )
  unfolding ◌>>=◌ open_with_timeout apply_timeout check_timeout catch call gets reads pure when
      open_impl has_set_timeout get_timeout is_running cannot_stop
  judge-null w = refl

  -- Without a device the verdict on a required watchdog is negative.
  judge-null-refuses :
      (w w' : W)
      → w.config.mode ≡ Mode.required
      → judge (record w { impl = null }) ≡ (ok true, w')
      → ⊥
  unfolding is_running
  judge-null-refuses w w' r h =
      let e = ap (λ (x : Outcome Bool × W). x.0) (sym (judge-null w) ∙ h) in
      let (run, _) =
        verdict-true (some (pos 1000000000)) (record w { impl = null }) r (injected e) in
      cc

  -- Without slack there is no device.
  activate-eq :
      (w : W)
      → activate drv get_impl_of w ≡ (
          let w1 = record w { active = true; active_config = w.config } in
          if ltb_ℤ (timing_slack w.config) (pos 0)
          then judge (record w1 { impl = null })
          else judge w1)
  unfolding activate activate_impl modify gets when pure ◌>>=◌
  activate-eq w = split (ltb_ℤ (timing_slack w.config) (pos 0))
    where
      split :
          (b : Bool)
          → (when b (set_impl drv get_impl_of null) >>= λ _. judge)
              (record w { active = true; active_config = w.config })
            ≡ (let w1 = record w { active = true; active_config = w.config } in
                if b then judge (record w1 { impl = null }) else judge w1)
      split true = refl
      split false = refl

  -- A required watchdog whose activation succeeds guards the node: a device runs whose timeout is
  -- zero or at most the configured one, and the configured slack is not negative.
  pub activate-required :
      (w w' : W)
      → w.config.mode ≡ Mode.required
      → activate drv get_impl_of w ≡ (ok true, w')
      → Guarded w.config w'.impl × (pos 0 ≤ℤ timing_slack w.config)
  activate-required w w' r h = elim (Bool-cases (ltb_ℤ (timing_slack w.config) (pos 0))) [
    | inl e ↦ absurd (judge-null-refuses w1 w' r (rw e at g))
    | inr e ↦ (opened w1 w' r (rw e at g), ground arith)
  ]
    where
      w1 : W
      w1 = record w { active = true; active_config = w.config }

      g :
          (if ltb_ℤ (timing_slack w.config) (pos 0)
            then judge (record w1 { impl = null })
            else judge w1)
          ≡ (ok true, w')
      g = sym (activate-eq w) ∙ h
