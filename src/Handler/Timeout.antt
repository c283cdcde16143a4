-- ===== src/Handler/Timeout.antt =====
-- prober/handler.go: `getTimeout`, the time that a probe is given.
use mathlib.Core.Logic.{◌⊎◌}
use big_blackbox_exporter.Base.{
  ◌≡◌, Bool, true, false, not, ◌&&◌, ◌||◌, String, Option, some, none, str_eq, if◌then◌else◌,
}
use big_blackbox_exporter.Base.Int.{ℤ, pos}
use big_blackbox_exporter.Float64.{Float64}

module _ (fl : Float64) where
  open fl use {Num, of_int, sub, lt, eq, parse, seconds}

  abbrev pub zero_num : Num
  zero_num = of_int (pos 0)

  -- The header's number; none is the error of its conversion.
  abbrev pub checked : Num × Bool → Option Num
  checked (v, ok) = if ok then some v else none

  abbrev pub scrape_timeout : String → Option Num
  scrape_timeout header = if not (str_eq header "") then checked (parse header) else some zero_num

  abbrev pub or_default : Num → Num
  or_default t = if eq t zero_num then of_int (pos 120) else t

  -- The longest time that the scraper leaves, and the time of the module.
  abbrev pub limit_timeout : (max_timeout module_timeout : Num) → Num
  limit_timeout max_timeout module_timeout =
      if (lt module_timeout max_timeout && lt zero_num module_timeout) || lt max_timeout zero_num
      then module_timeout
      else max_timeout

  abbrev pub limited : Num → ℤ → Option Num → Option Num
  limited offset timeout none = none
  limited offset timeout (some t) =
      some (limit_timeout (sub (or_default t) offset) (seconds timeout))

  -- `header` is the value of X-Prometheus-Scrape-Timeout-Seconds, "" if there is none.
  unfoldable pub get_timeout : (header : String) → (timeout : ℤ) → (offset : Num) → Option Num
  get_timeout header timeout offset = limited offset timeout (scrape_timeout header)

  -- The timeout `t` is right for the scraper's limit `max` and the module's own timeout `own`.
  pub record IsTimeout (max own t : Num) : Type 0 where
    pub within_own : lt zero_num own ≡ true → lt own t ≡ false
    pub within_max : lt max zero_num ≡ false → lt max t ≡ false
    pub not_limited : lt zero_num own ≡ false → lt max zero_num ≡ false → t ≡ max
    pub below_zero : lt max zero_num ≡ true → t ≡ own
    pub given : (t ≡ max) ⊎ (t ≡ own)
