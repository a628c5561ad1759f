-- ===== src/Watchdog/Device.antt =====
-- `WatchdogBase`, the interface of a watchdog device, with `NullWatchdog` as one of its values. The
-- device behind the interface is the operating system's.
use area.Common.{ℤ, pos, Bool, true, false}
use area.Watchdog.Action.{Outcome, ok, watchdog_error}

-- A kind of devices: what they do, with the settings of `driver_config`.
pub record Driver : Type 1 where
  pub Settings : Type 0
  pub eq_settings : Settings → Settings → Bool
  pub State : Type 0
  pub open_device : State → Outcome (Unit {0}) × State
  pub close_device : State → Outcome (Unit {0}) × State
  pub keepalive_device : State → Outcome (Unit {0}) × State
  pub set_device_timeout : ℤ → State → Outcome (Unit {0}) × State
  pub device_timeout : State → Outcome ℤ
  pub device_has_set_timeout : State → Outcome Bool
  pub device_running : State → Bool
  pub device_healthy : State → Bool
  pub device_can_be_disabled : State → Outcome Bool

pub data Impl (State : Type 0) : Type 0 where
  null : Impl State
  device : State → Impl State

module _ (drv : Driver) where
  open drv use {
    State, open_device, close_device, keepalive_device, set_device_timeout, device_timeout,
    device_has_set_timeout, device_running, device_healthy, device_can_be_disabled,
  }

  abbrev lift : Outcome (Unit {0}) × State → Outcome (Unit {0}) × Impl State
  lift (x, d) = (x, device d)

  unfoldable pub open_impl : Impl State → Outcome (Unit {0}) × Impl State
  open_impl null = (ok tt, null)
  open_impl (device d) = lift (open_device d)

  unfoldable pub close_impl : Impl State → Outcome (Unit {0}) × Impl State
  close_impl null = (ok tt, null)
  close_impl (device d) = lift (close_device d)

  unfoldable pub keepalive_impl : Impl State → Outcome (Unit {0}) × Impl State
  keepalive_impl null = (ok tt, null)
  keepalive_impl (device d) = lift (keepalive_device d)

  unfoldable pub set_timeout : ℤ → Impl State → Outcome (Unit {0}) × Impl State
  set_timeout t null = (watchdog_error, null)
  set_timeout t (device d) = lift (set_device_timeout t d)

  -- A big enough number to not matter.
  unfoldable pub get_timeout : Impl State → Outcome ℤ
  get_timeout null = ok (pos 1000000000)
  get_timeout (device d) = device_timeout d

  unfoldable pub has_set_timeout : Impl State → Outcome Bool
  has_set_timeout null = ok false
  has_set_timeout (device d) = device_has_set_timeout d

  unfoldable pub is_running : Impl State → Bool
  is_running null = false
  is_running (device d) = device_running d

  unfoldable pub is_healthy_impl : Impl State → Bool
  is_healthy_impl null = false
  is_healthy_impl (device d) = device_healthy d

  unfoldable pub can_be_disabled : Impl State → Outcome Bool
  can_be_disabled null = ok true
  can_be_disabled (device d) = device_can_be_disabled d
