-- ===== src/Btc/Tests.antt =====
-- The hosts of two targets, and the theorem at one of them.
use big_blackbox_exporter.Base.{◌≡◌, refl, true, false}
use big_blackbox_exporter.Base.Text.{trim_left}
use big_blackbox_exporter.Btc.{trim_cutset, host_of}
use big_blackbox_exporter.Btc.Host.{host_of-http}

hosts :
    (host_of "http://node:8332" ≡ ("node:8332", true))
    × (host_of "https://htp.org" ≡ (".org", false))
unfolding host_of
hosts = (refl, refl)

host_of-http_example : host_of "http://pool" ≡ ("ool", true)
unfolding trim_cutset trim_left
host_of-http_example = host_of-http "p" "ool"
