-- ===== src/Tls/Report.antt =====
-- The gauges of a TLS connection's certificates, which the probes for HTTP, TCP and gRPC set.
--
-- `unix` is `float64(t.Unix())`, and `fingerprint` the hexadecimal SHA-256 sum.
pub mod Registration
use big_blackbox_exporter.Base.{ℕ, List, [], ◌∷◌, String}
use big_blackbox_exporter.Base.Int.{pos}
use big_blackbox_exporter.Float64.{Float64}
use big_blackbox_exporter.Metrics.{Probe, ◌>>◌, must_register_all, set_gauge, or_fault}
use big_blackbox_exporter.Tls.{
  Time, ConnectionState, get_earliest_cert_expiry, get_last_chain_expiry, get_fingerprint,
  get_subject, get_issuer, get_dns_names, get_tls_version,
}

-- The gauges that the probes share, by name; the help texts are left out.
abbrev pub ssl_earliest_cert_expiry_gauge_opts : String
ssl_earliest_cert_expiry_gauge_opts = "probe_ssl_earliest_cert_expiry"

abbrev pub ssl_chain_expiry_in_time_stamp_gauge_opts : String
ssl_chain_expiry_in_time_stamp_gauge_opts = "probe_ssl_last_chain_expiry_timestamp_seconds"

abbrev pub probe_tls_info_gauge_opts : String
probe_tls_info_gauge_opts = "probe_tls_version_info"

module _ (fl : Float64) (unix : Time → fl.Num) (fingerprint : List ℕ → String) where
  open fl use {Num, of_int}

  abbrev pub set_earliest_cert_expiry : ConnectionState → Probe Num (Unit {0})
  set_earliest_cert_expiry tls =
      set_gauge ssl_earliest_cert_expiry_gauge_opts [] (unix (get_earliest_cert_expiry tls))

  abbrev pub set_tls_version : ConnectionState → Probe Num (Unit {0})
  set_tls_version tls =
      set_gauge probe_tls_info_gauge_opts (get_tls_version tls ∷ []) (of_int (pos 1))

  abbrev pub set_last_chain_info : ConnectionState → Probe Num (Unit {0})
  set_last_chain_info tls = or_fault (get_fingerprint fingerprint tls) λ sum.
      or_fault (get_subject tls) λ subject. or_fault (get_issuer tls) λ issuer.
        or_fault (get_dns_names tls) λ dns_names.
          set_gauge "probe_ssl_last_chain_info" (sum ∷ subject ∷ issuer ∷ dns_names ∷ [])
            (of_int (pos 1))

  -- The four collectors are registered in one call, and then set.
  unfoldable pub report_connection : ConnectionState → Probe Num (Unit {0})
  report_connection tls = do
    must_register_all (
        ssl_earliest_cert_expiry_gauge_opts ∷ probe_tls_info_gauge_opts
        ∷ ssl_chain_expiry_in_time_stamp_gauge_opts ∷ "probe_ssl_last_chain_info" ∷ [])
    set_earliest_cert_expiry tls
    set_tls_version tls
    set_gauge ssl_chain_expiry_in_time_stamp_gauge_opts [] (unix (get_last_chain_expiry tls))
    set_last_chain_info tls
