-- ===== src/Watchdog/Pending.antt =====
-- Configuration changes that wait for `keepalive`.
use area.Common.{eqb_ℤ, ◌≡◌, inl, inr, true, false, ◌&&◌, not, Bool-cases}
use area.Watchdog.Action.{ok, pure, gets, when, catch, ◌>>=◌}
use area.Watchdog.Config.{Mode, WatchdogConfig, eq_mode, timeout, same_driver, eq_config}
use area.Watchdog.Device.{Driver, Impl, null, keepalive_impl, set_timeout}
use area.Watchdog.Facade.{Facade, call, apply_pending, keepalive}

module _ (drv : Driver) (get_impl_of : WatchdogConfig drv.Settings → Impl drv.State) where
  open drv use {Settings, State, device_timeout, device_running}

  abbrev W : Type 0
  W = Facade drv get_impl_of

  -- With no device, a change of the timeout of an active watchdog is never taken over when the
  -- driver stays the same and the watchdog was not just turned on: `keepalive` changes nothing.
  pub keepalive-stuck :
      (c active : WatchdogConfig Settings)
      → (not (eq_mode c.mode Mode.off) && eq_mode active.mode Mode.off) ≡ false
      → same_driver drv.eq_settings c active ≡ true
      → eqb_ℤ (timeout c) (timeout active) ≡ false
      → (let w : W = record { config = c; active_config = active; active = true; impl = null } in
          keepalive drv get_impl_of w ≡ (ok tt, w))
  unfolding keepalive apply_pending catch call gets pure when ◌>>=◌ keepalive_impl set_timeout
  keepalive-stuck c active q s t = elim (Bool-cases (eq_config drv.eq_settings c active)) [
    | inl p ↦ rw p
    | inr p ↦ rw (p, q, s, t)
  ]
