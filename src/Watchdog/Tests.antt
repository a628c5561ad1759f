-- ===== src/Watchdog/Tests.antt =====
-- The watchdog theorems at a device that counts its keepalives and takes any timeout.
use area.Common.{
  ℕ, suc, ◌-ℤ◌, ℤ, pos, ◌≡◌, refl, Bool, true, false, codes, if◌then◌else◌, ◌≤ℤ◌, eq_text,
}
use area.Watchdog.Action.{ok, watchdog_error, pure, gets, reads, modify, when, catch, ◌>>=◌}
use area.Watchdog.Config.{Mode, WatchdogConfig, timeout, timing_slack, eq_mode, same_driver}
use area.Watchdog.Device.{
  Driver, Impl, null, device, open_impl, set_timeout, get_timeout, has_set_timeout, is_running,
  can_be_disabled,
}
use area.Watchdog.Facade.{
  Facade, call, activate, activate_impl, open_with_timeout, apply_timeout, check_timeout, verdict,
  is_too_long, cannot_stop, keepalive,
}
use area.Watchdog.Contract.{activate-required, Guarded}
use area.Watchdog.Pending.{keepalive-stuck}

record Counter : Type 0 where
  running : Bool
  period : ℤ
  pinged : ℕ

abbrev counting : Driver
counting = record {
  Settings = Unit {0};
  eq_settings = λ _ _. true;
  State = Counter;
  open_device = λ d. (ok tt, record d { running = true });
  close_device = λ d. (ok tt, record d { running = false });
  keepalive_device =
      λ d. (if d.running then ok tt else watchdog_error, record d { pinged = suc d.pinged });
  set_device_timeout = λ t d. (ok tt, record d { period = t });
  device_timeout = λ d. ok d.period;
  device_has_set_timeout = λ d. ok true;
  device_running = λ d. d.running;
  device_healthy = λ d. d.running;
  device_can_be_disabled = λ d. ok true;
}

abbrev fresh : WatchdogConfig (Unit {0}) → Impl Counter
fresh c = device (record { running = false; period = pos 60; pinged = 0 })

abbrev needed : WatchdogConfig (Unit {0})
needed = record {
  mode = Mode.required;
  ttl = pos 30;
  loop_wait = pos 10;
  safety_margin = pos 5;
  driver = codes "default";
  driver_config = tt;
}

abbrev lenient : WatchdogConfig (Unit {0})
lenient = record needed { mode = Mode.automatic; ttl = pos 40 }

abbrev idle : Facade counting fresh
idle = record { config = needed; active_config = needed; active = false; impl = fresh needed }

abbrev armed : Facade counting fresh
armed = record {
  config = needed;
  active_config = needed;
  active = true;
  impl = device (record { running = true; period = pos 25; pinged = 0 });
}

activate-required_example :
    Guarded counting fresh needed armed.impl × (pos 0 ≤ℤ timing_slack needed)
unfolding activate activate_impl open_with_timeout apply_timeout check_timeout verdict is_too_long
    call modify gets reads pure when catch ◌>>=◌ cannot_stop open_impl set_timeout get_timeout
    has_set_timeout is_running can_be_disabled timeout timing_slack eq_mode ◌-ℤ◌
activate-required_example = activate-required counting fresh idle armed refl refl

keepalive-stuck_example :
    (let w : Facade counting fresh = record {
      config = lenient;
      active_config = needed;
      active = true;
      impl = null;
    } in
      keepalive counting fresh w ≡ (ok tt, w))
unfolding timeout eq_mode same_driver eq_text ◌-ℤ◌
keepalive-stuck_example = keepalive-stuck counting fresh lenient needed refl refl refl
