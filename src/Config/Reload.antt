-- ===== src/Config/Reload.antt =====
-- config/config.go: `SafeConfig` and `ReloadConfig`.
--
-- The lock makes the exchange of the configuration one step, so a reload is a function of the
-- state. Opening and decoding the file give a configuration or an error; `now` is the time that
-- `SetToCurrentTime` reads.
pub mod Latest
use big_blackbox_exporter.Base.{
  ℕ, ◌≡◌, Bool, true, false, List, [], ◌∷◌, String, Option, some, none, map,
}
use big_blackbox_exporter.Base.Int.{ℤ}
use big_blackbox_exporter.Config.{Module, Config}
use big_blackbox_exporter.Config.Unmarshal.{Result, ok, err}

pub record SafeConfig : Type 0 where
  pub config : Config
  pub config_reload_success : ℕ
  pub config_reload_seconds : ℤ

-- `NewSafeConfig`: an empty configuration, and two gauges at 0.
abbrev pub new_safe_config : ℤ → SafeConfig
new_safe_config zero = record {
  config = record { modules = [] };
  config_reload_success = 0;
  config_reload_seconds = zero;
}

-- The loop that hides the old flag; a module that does not set it stays as it is.
abbrev pub hide_flag : String × Module → String × Module
hide_flag (name, m) = (name, record m { http = record m.http { no_follow_redirects = none } })

abbrev pub hide_flags : Config → Config
hide_flags c = record { modules = map hide_flag c.modules }

-- The result is the new state and the error that is returned.
unfoldable pub reload_config :
    (opened_and_decoded : Result Config) → (now : ℤ) → SafeConfig → SafeConfig × Option String
reload_config (err e) now sc = (record sc { config_reload_success = 0 }, some e)
reload_config (ok c) now sc =
    (record { config = hide_flags c; config_reload_success = 1; config_reload_seconds = now }, none)
