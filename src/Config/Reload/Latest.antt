-- ===== src/Config/Reload/Latest.antt =====
-- The configuration in use after any sequence of reloads.
use big_blackbox_exporter.Base.{ℕ, ◌≡◌, refl, List, [], ◌∷◌}
use big_blackbox_exporter.Base.Int.{ℤ}
use big_blackbox_exporter.Config.{Config}
use big_blackbox_exporter.Config.Unmarshal.{Result, ok, err}
use big_blackbox_exporter.Config.Reload.{SafeConfig, hide_flags, reload_config}

-- Reloads in the order in which the loop in main.go makes them, each with its time.
unfoldable pub reload_all : List (Result Config × ℤ) → SafeConfig → SafeConfig
unfolding reload_config
reload_all [] sc = sc
reload_all ((r, now) ∷ rs) sc = reload_all rs (reload_config r now sc).0

-- The last configuration that could be read, with its time.
abbrev pub latest : Config × ℤ → List (Result Config × ℤ) → Config × ℤ
latest current [] = current
latest current ((err e, now) ∷ rs) = latest current rs
latest current ((ok c, now) ∷ rs) = latest (hide_flags c, now) rs

abbrev pub succeeded : Result Config → ℕ
succeeded (ok c) = 1
succeeded (err e) = 0

-- Whether the last reload of a sequence succeeded.
abbrev pub last_success : ℕ → List (Result Config × ℤ) → ℕ
last_success before [] = before
last_success before ((r, now) ∷ rs) = last_success (succeeded r) rs

-- After any sequence of reloads the configuration in use is the last one that could be read, and
-- the timestamp is that of its reload: a reload that fails changes neither. The success gauge is
-- that of the last reload.
pub reload_all-latest :
    (rs : List (Result Config × ℤ)) (sc : SafeConfig)
    → ((reload_all rs sc).config ≡ (latest (sc.config, sc.config_reload_seconds) rs).0)
      × ((reload_all rs sc).config_reload_seconds
          ≡ (latest (sc.config, sc.config_reload_seconds) rs).1)
      × ((reload_all rs sc).config_reload_success ≡ last_success sc.config_reload_success rs)
unfolding reload_all
reload_all-latest [] sc = (refl, refl, refl)
reload_all-latest ((err e, now) ∷ rs) sc = reload_all-latest rs _
reload_all-latest ((ok c, now) ∷ rs) sc = reload_all-latest rs _
