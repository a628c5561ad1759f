-- ===== src/Watchdog/Config.antt =====
-- `WatchdogConfig`: a snapshot of the configuration. What `driver_config` holds is the user's.
use area.Common.{
  ℤ, pos, negsuc, ◌-ℤ◌, eqb_ℤ, ◌/◌, Bool, true, false, ◌&&◌, Text, codes, eq_text, lower, some_of,
  [], ◌∷◌, List, if◌then◌else◌,
}

pub data Mode : Type 0 where
  required automatic off : Mode

abbrev is_one_of : List Text → Text → Bool
is_one_of ws s = some_of (eq_text s) ws

-- The setting is `False`, or something whose text is taken.
pub data Setting : Type 0 where
  disabled : Setting
  text : Text → Setting

unfoldable pub parse_mode : Setting → Mode
parse_mode disabled = off
parse_mode (text mode) =
    if is_one_of (codes "require" ∷ codes "required" ∷ []) (lower mode)
    then required
    else if is_one_of (codes "auto" ∷ codes "automatic" ∷ []) (lower mode)
    then automatic
    else off

unfoldable pub eq_mode : Mode → Mode → Bool
eq_mode required required = true
eq_mode automatic automatic = true
eq_mode off off = true
eq_mode _ _ = false

pub record WatchdogConfig (Settings : Type 0) : Type 0 where
  pub mode : Mode
  pub ttl : ℤ
  pub loop_wait : ℤ
  pub safety_margin : ℤ
  pub driver : Text
  pub driver_config : Settings

-- `n // 2`
abbrev half : ℤ → ℤ
half (pos n) = pos (n / 2)
half (negsuc n) = negsuc (n / 2)

module _ {Settings : Type 0} where
  unfoldable pub timeout : WatchdogConfig Settings → ℤ
  timeout c = if eqb_ℤ c.safety_margin (negsuc 0) then half c.ttl else c.ttl -ℤ c.safety_margin

  unfoldable pub timing_slack : WatchdogConfig Settings → ℤ
  timing_slack c = timeout c -ℤ c.loop_wait

-- Two configurations with the same device.
unfoldable pub same_driver :
    {Settings : Type 0} (eq : Settings → Settings → Bool) (c d : WatchdogConfig Settings) → Bool
same_driver eq c d = eq_text c.driver d.driver && eq c.driver_config d.driver_config

-- `__eq__`
unfoldable pub eq_config :
    {Settings : Type 0} (eq : Settings → Settings → Bool) (c d : WatchdogConfig Settings) → Bool
unfolding same_driver
eq_config eq c d =
    eq_mode c.mode d.mode
    && eqb_ℤ c.ttl d.ttl
    && eqb_ℤ c.loop_wait d.loop_wait
    && eqb_ℤ c.safety_margin d.safety_margin
    && same_driver eq c d
