-- ===== src/Watchdog/Facade.antt =====
-- `Watchdog`: the methods that other threads call are atomic, since each holds the lock.
use area.Common.{
  ℤ, pos, ltb_ℤ, leb_ℤ, nonzero, Bool, true, false, ◌&&◌, ◌||◌, not, Option, none, some, eqb_ℤ,
  if◌then◌else◌,
}
use area.Watchdog.Action.{
  Outcome, ok, watchdog_error, Action, pure, gets, reads, modify, when, catch, ◌>>=◌, ◌>>◌,
}
use area.Watchdog.Config.{
  Mode, WatchdogConfig, eq_mode, timeout, timing_slack, same_driver, eq_config,
}
use area.Watchdog.Device.{
  Driver, Impl, null, open_impl, close_impl, keepalive_impl, set_timeout, get_timeout,
  has_set_timeout, is_running, is_healthy_impl, can_be_disabled,
}

pub record Watchdog (Settings State : Type 0) : Type 0 where
  pub config : WatchdogConfig Settings
  pub active_config : WatchdogConfig Settings
  pub active : Bool
  pub impl : Impl State

-- `actual_timeout and actual_timeout > self.config.timeout`
unfoldable pub is_too_long : Option ℤ → ℤ → Bool
is_too_long none limit = false
is_too_long (some t) limit = nonzero t && ltb_ℤ limit t

-- `get_impl` chooses the device for a configuration; the platform decides.
module _ (drv : Driver) (get_impl : WatchdogConfig drv.Settings → Impl drv.State) where
  open drv use {Settings, State, eq_settings}

  abbrev pub Facade : Type 0
  Facade = Watchdog Settings State

  -- A call of the device.
  unfoldable pub call : (Impl State → Outcome (Unit {0}) × Impl State) → Action Facade (Unit {0})
  call f w = let (x, impl) = f w.impl in (x, record w { impl = impl })

  abbrev pub set_impl : Impl State → Action Facade (Unit {0})
  set_impl impl = modify (λ w. record w { impl = impl })

  -- `self.impl.is_running and not self.impl.can_be_disabled`
  unfoldable pub cannot_stop : Facade → Outcome Bool
  cannot_stop w = if is_running drv w.impl then negate (can_be_disabled drv w.impl) else ok false
    where
      negate : Outcome Bool → Outcome Bool
      negate (ok b) = ok (not b)
      negate watchdog_error = watchdog_error

  unfoldable pub init : WatchdogConfig Settings → Option Facade
  init config =
      let impl = if eq_mode config.mode Mode.off then null else get_impl config in
      if eq_mode config.mode Mode.required && is_null impl
      then none
      else some (record { config = config; active_config = config; active = false; impl = impl })
    where
      is_null : Impl State → Bool
      is_null null = true
      is_null _ = false

  -- `_disable`
  unfoldable pub disable_impl : Action Facade (Unit {0})
  disable_impl =
      catch
        (do
          stuck ← reads cannot_stop
          when stuck (do call (keepalive_impl drv); reads (λ w. get_timeout drv w.impl); pure tt)
          call (close_impl drv))
        (pure tt)

  -- The safety checks of `_set_timeout` on the timeout that the device reports.
  unfoldable pub check_timeout : ℤ → Action Facade (Option ℤ)
  check_timeout actual = do
    w ← gets (λ w. w)
    if is_running drv w.impl && ltb_ℤ actual w.config.loop_wait
        then (do
          stops ← reads (λ w. can_be_disabled drv w.impl)
          if stops
              then (do call (close_impl drv); set_impl null; pure none)
              else pure (some actual))
        else pure (some actual)

  -- `_set_timeout`
  unfoldable pub apply_timeout : Action Facade (Option ℤ)
  apply_timeout = do
    w ← gets (λ w. w)
    can_set ← reads (λ w. has_set_timeout drv w.impl)
    when can_set (call (set_timeout drv (timeout w.config)))
    actual ← reads (λ w. get_timeout drv w.impl)
    check_timeout actual

  -- The part of `_activate` that may fail.
  unfoldable pub open_with_timeout : Action Facade (Option ℤ)
  open_with_timeout =
      catch (do call (open_impl drv); apply_timeout)
        (do set_impl null; actual ← reads (λ w. get_timeout drv w.impl); pure (some actual))

  -- The verdict of `_activate` on what was configured.
  unfoldable pub verdict : Option ℤ → Facade → Bool
  unfolding is_too_long
  verdict actual w =
      let running = is_running drv w.impl in
      let required = eq_mode w.config.mode Mode.required in
      if (not running || is_too_long actual (timeout w.config)) && required
      then false
      else if not running && required
      then false
      else true

  -- `_activate`
  unfoldable pub activate_impl : Action Facade Bool
  activate_impl = do
    modify (λ w. record w { active_config = w.config })
    w ← gets (λ w. w)
    when (ltb_ℤ (timing_slack w.config) (pos 0)) (set_impl null)
    actual ← open_with_timeout
    reads cannot_stop
    gets (verdict actual)

  unfoldable pub activate : Action Facade Bool
  activate = do modify (λ w. record w { active = true }); activate_impl

  unfoldable pub disable : Action Facade (Unit {0})
  disable = do disable_impl; modify (λ w. record w { active = false })

  unfoldable pub reload_config : WatchdogConfig Settings → Action Facade (Unit {0})
  reload_config config = do
    modify (λ w. record w { config = config })
    w ← gets (λ w. w)
    when (eq_mode config.mode Mode.off) (do
      when w.active disable_impl
      modify (λ w. record w { active_config = config; impl = null }))
    w ← gets (λ w. w)
    when (not w.active) (do
      when (not (same_driver eq_settings w.config w.active_config)) (set_impl (get_impl w.config))
      modify (λ w. record w { active_config = w.config }))

  -- The pending changes of `keepalive`.
  unfoldable pub apply_pending : Action Facade (Unit {0})
  apply_pending = do
    w ← gets (λ w. w)
    when (not (eq_mode w.config.mode Mode.off) && eq_mode w.active_config.mode Mode.off)
        (do set_impl (get_impl w.config); activate_impl; pure tt)
    w ← gets (λ w. w)
    when (not (same_driver eq_settings w.config w.active_config))
        (do disable_impl; set_impl (get_impl w.config); activate_impl; pure tt)
    w ← gets (λ w. w)
    when (not (eqb_ℤ (timeout w.config) (timeout w.active_config))) (do
      call (set_timeout drv (timeout w.config))
      w ← gets (λ w. w)
      when (is_running drv w.impl) (do reads (λ w. get_timeout drv w.impl); pure tt))
    modify (λ w. record w { active_config = w.config })

  unfoldable pub keepalive : Action Facade (Unit {0})
  keepalive =
      catch
        (do
          w ← gets (λ w. w)
          when w.active (call (keepalive_impl drv))
          w ← gets (λ w. w)
          when (w.active && not (eq_config eq_settings w.config w.active_config)) apply_pending)
        (pure tt)

  unfoldable pub is_healthy : Facade → Bool
  is_healthy w =
      if eq_mode w.config.mode Mode.required
      then leb_ℤ (pos 0) (timing_slack w.config) && is_healthy_impl drv w.impl
      else true
