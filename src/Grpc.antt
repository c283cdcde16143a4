-- ===== src/Grpc.antt =====
-- prober/grpc.go: `gRPCHealthCheckClient.Check` and `ProbeGRPC`.
--
-- The connection and the generated health client are parameters, as are net/url, the resolver and
-- the measured times; `none` is an error. A connection that could not be made is nil, and a call
-- through it is a panic. The host that `ProbeGRPC` writes into the parsed URL is not read again and
-- is left out, as is logging.
pub mod Gauges
pub mod Soundness
mod Tests
use Prim.Native.String.{◌++◌ as ◌<>◌}
use text.Mathlib.Text.{starts_with}
use big_blackbox_exporter.Base.Text.{with_scheme}
use big_blackbox_exporter.Base.{
  ℕ, Bool, true, false, not, ◌&&◌, ◌||◌, List, [], ◌∷◌, String, Option, some, none, str_eq, ◌==◌,
  if◌then◌else◌,
}
use big_blackbox_exporter.Base.Int.{pos}
use big_blackbox_exporter.Float64.{Float64}
use big_blackbox_exporter.Tls.{Time, ConnectionState}
use big_blackbox_exporter.Tls.Report.{
  ssl_earliest_cert_expiry_gauge_opts, probe_tls_info_gauge_opts, set_earliest_cert_expiry,
  set_tls_version, set_last_chain_info,
}
use big_blackbox_exporter.Config.{TlsConfig, GrpcProbe}
use big_blackbox_exporter.Protocol.{Resolver, Chosen, choose_protocol}
use big_blackbox_exporter.Metrics.{
  Probe, ◌>>=◌, ◌>>◌, return, must_register, set_gauge, add_gauge, with_labels, ensure, or_fail,
  or_fault, is_nil,
}

-- What the generated client's `Check` gives: a serving status with the peer's TLS state, or an
-- error with its code.
pub data Reply : Type 0 where
  health : (status : ℕ) → (tls : Option ConnectionState) → Reply
  rpc_error : (code : ℕ) → Reply

pub record GrpcEnv (V Conn : Type 0) : Type 0 where
  -- `url.Parse`, of which the host is read
  pub url_host : String → Option String
  pub split_host_port : String → Option (String × String)
  pub new_tls_config : TlsConfig → Option TlsConfig
  pub resolver : Resolver
  pub lookup_time : V
  -- `grpc.Dial` with the credentials of the options
  pub dial : String → Option TlsConfig → Option Conn
  pub check : Conn → (service : String) → Reply
  -- `HealthCheckResponse_SERVING`, `ServingStatus.String` and the keys of `ServingStatus_value`
  pub serving : ℕ
  pub status_name : ℕ → String
  pub status_names : List String
  pub check_seconds : V
  pub unix : Time → V
  pub fingerprint : List ℕ → String

-- The results of `Check`; a peer that is not nil has a TLS state or none.
pub record Checked : Type 0 where
  pub ok : Bool
  pub status_code : ℕ
  pub server_peer : Option (Option ConnectionState)
  pub serving_status : String
  pub failed : Bool

module _ {V Conn : Type 0} (env : GrpcEnv V Conn) where
  unfoldable pub check : Reply → Checked
  check (health status tls) = record {
    ok = status == env.serving;
    status_code = 0;
    server_peer = some tls;
    serving_status = env.status_name status;
    failed = false;
  }
  check (rpc_error code) = record {
    ok = false;
    status_code = code;
    server_peer = none;
    serving_status = "";
    failed = true;
  }

-- Without a port the whole is the host.
abbrev pub host_port : String → Option (String × String) → String × String
host_port url_host none = (url_host, "")
host_port url_host (some hp) = hp

unfoldable pub dial_target : (tls : Bool) → (host port : String) → String
dial_target tls host port =
    if str_eq port "" then host <> (if tls then ":443" else ":80") else host <> ":" <> port

-- The credentials, with the host where no name is configured.
abbrev pub credentials : (tls : Bool) → (host : String) → TlsConfig → Option TlsConfig
credentials false host config = none
credentials true host config =
    some (if str_eq config.server_name "" then record config { server_name = host } else config)

module _ (fl : Float64) {Conn : Type 0} (env : GrpcEnv (fl.Num) Conn) where
  open fl use {Num, of_int, add}

  abbrev pub zero_gauge : Num
  zero_gauge = of_int (pos 0)

  abbrev pub one_gauge : Num
  one_gauge = of_int (pos 1)

  -- The loop that sets the gauge of every status to 0.
  unfoldable pub clear_statuses : List String → Probe Num (Unit {0})
  clear_statuses [] = return tt
  clear_statuses (name ∷ names) =
      set_gauge "probe_grpc_healthcheck_response" (name ∷ []) zero_gauge >> clear_statuses names

  abbrev pub set_status : String → Probe Num (Unit {0})
  set_status status =
      if not (str_eq status "")
      then set_gauge "probe_grpc_healthcheck_response" (status ∷ []) one_gauge
      else return tt

  abbrev pub report_peer : Option (Option ConnectionState) → Probe Num (Unit {0})
  report_peer none = return tt
  report_peer (some none) = set_gauge "probe_grpc_ssl" [] zero_gauge
  report_peer (some (some tls)) = do
    set_gauge "probe_grpc_ssl" [] one_gauge
    set_earliest_cert_expiry fl env.unix env.fingerprint tls
    set_tls_version fl env.unix env.fingerprint tls
    set_last_chain_info fl env.unix env.fingerprint tls

  -- What follows the check.
  unfoldable pub report_check : Checked → Probe Num Bool
  report_check checked = do
    add_gauge add zero_gauge "probe_grpc_duration_seconds" ("check" ∷ []) env.check_seconds
    clear_statuses env.status_names
    set_status checked.serving_status
    report_peer checked.server_peer
    set_gauge "probe_grpc_status_code" [] (of_int (pos checked.status_code))
    return (if not checked.ok || checked.failed then false else true)

  abbrev pub dial_and_check : GrpcProbe → (host port : String) → TlsConfig → Probe Num Bool
  dial_and_check grpc host port tls =
      or_fault (env.dial (dial_target grpc.tls host port) (credentials grpc.tls host tls))
        λ conn. report_check (check env (env.check conn grpc.service))

  -- What follows the resolution, of which only the error and the time are used.
  abbrev pub after_resolution :
      GrpcProbe → (host port : String) → TlsConfig → Chosen Num → Probe Num Bool
  after_resolution grpc host port tls resolved = ensure (is_nil resolved.err) do
    add_gauge add zero_gauge "probe_grpc_duration_seconds" ("resolve" ∷ []) resolved.lookup_time
    dial_and_check grpc host port tls

  abbrev pub probe_host : GrpcProbe → (host_and_port : String × String) → Probe Num Bool
  probe_host grpc hp = or_fail (env.new_tls_config grpc.tls_config) λ tls. do
    resolved ←
        choose_protocol fl env.resolver env.lookup_time grpc.preferred_ip_protocol
          grpc.ip_protocol_fallback hp.0
    after_resolution grpc hp.0 hp.1 tls resolved

  unfoldable pub probe_grpc : GrpcProbe → (target : String) → Probe Num Bool
  probe_grpc grpc target = do
    with_labels zero_gauge "probe_grpc_duration_seconds" ("resolve" ∷ [])
    must_register "probe_grpc_duration_seconds"
    must_register "probe_grpc_ssl"
    must_register "probe_grpc_status_code"
    must_register "probe_grpc_healthcheck_response"
    must_register ssl_earliest_cert_expiry_gauge_opts
    must_register probe_tls_info_gauge_opts
    must_register "probe_ssl_last_chain_info"
    or_fail (env.url_host (with_scheme target))
        λ url_host. probe_host grpc (host_port url_host (env.split_host_port url_host))
