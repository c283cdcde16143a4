-- ===== src/Grpc/Soundness.antt =====
-- What a gRPC probe that succeeds has seen.
use big_blackbox_exporter.Base.{
  ℕ, ◌≡◌, refl, Bool, true, false, not, ◌||◌, [], String, Option, some, str_eq, ◌==◌, arith,
  if◌then◌else◌, Bool-cases, inl, inr,
}
use big_blackbox_exporter.Base.Int.{pos}
use big_blackbox_exporter.Float64.{Float64}
use big_blackbox_exporter.Tls.{ConnectionState}
use big_blackbox_exporter.Config.{TlsConfig, GrpcProbe}
use big_blackbox_exporter.Protocol.{Chosen}
use big_blackbox_exporter.Metrics.{Registry, done, value_of, is_nil}
use big_blackbox_exporter.Metrics.Inversion.{
  Partly, Partly-elim, Partly-skip, Partly-weaken, Partly-register, Partly-or_fail, Partly-ensure,
  Partly-or_fault,
}
use big_blackbox_exporter.Grpc.{
  Reply, health, rpc_error, GrpcEnv, check, host_port, dial_target, credentials, clear_statuses,
  report_check, after_resolution, probe_host, probe_grpc,
}
use big_blackbox_exporter.Base.Text.{with_scheme}
use big_blackbox_exporter.Grpc.Gauges.{IsOneHot, IsSsl, IsReported, report_check-IsReported}

module _ (fl : Float64) {Conn : Type 0} (env : GrpcEnv (fl.Num) Conn) where
  open fl use {Num, of_int}

  -- A health check of the server at a host and a port that answered that it is serving.
  pub record Served (grpc : GrpcProbe) (hp : String × String) (reg : Registry Num) : Type 0 where
    pub tls_config : TlsConfig
    pub conn : Conn
    pub tls : Option ConnectionState
    pub has_config : env.new_tls_config grpc.tls_config ≡ some tls_config
    pub dialed :
        env.dial (dial_target grpc.tls hp.0 hp.1) (credentials grpc.tls hp.0 tls_config) ≡ some conn
    pub answered : env.check conn grpc.service ≡ health env.serving tls
    pub one_hot : IsOneHot fl env (env.status_name env.serving) reg
    pub ssl : IsSsl fl env (some tls) reg
    pub code : value_of "probe_grpc_status_code" [] reg ≡ some (of_int (pos 0))

module _ (fl : Float64) {Conn : Type 0} (env : GrpcEnv (fl.Num) Conn)
    (named : (status : ℕ) → str_eq (env.status_name status) "" ≡ false) where
  open fl use {Num}

  abbrev Success : GrpcProbe → String × String → Bool → Registry Num → Type 0
  Success grpc hp b reg = b ≡ true → Served fl env grpc hp reg

  rpc_error-fails :
      (grpc : GrpcProbe) (hp : String × String) (code : ℕ) (reg : Registry Num)
      → Partly (Success grpc hp) (report_check fl env (check env (rpc_error code)) reg)
  unfolding report_check check
  rpc_error-fails grpc hp code reg =
      Partly-skip (Success grpc hp) (clear_statuses fl env env.status_names _) _ λ u reg₁ e. cc

  checked-Success :
      (grpc : GrpcProbe) (hp : String × String) (tls_config : TlsConfig) (conn : Conn)
      (reply : Reply) (reg : Registry Num)
      → env.new_tls_config grpc.tls_config ≡ some tls_config
      → env.dial (dial_target grpc.tls hp.0 hp.1) (credentials grpc.tls hp.0 tls_config) ≡ some conn
      → env.check conn grpc.service ≡ reply
      → Partly (Success grpc hp) (report_check fl env (check env reply) reg)
  unfolding check
  checked-Success grpc hp tls_config conn (rpc_error code) reg c d e =
      rpc_error-fails grpc hp code reg
  checked-Success grpc hp tls_config conn (health status tls) reg c d e =
      Partly-weaken (IsReported fl env (check env (health status tls))) (Success grpc hp) _
        (report_check-IsReported fl env (check env (health status tls)) reg (named status))
        λ b reg' r ok.
          let same : status ≡ env.serving = serving b status r.verdict ok in
          record {
            tls_config = tls_config;
            conn = conn;
            tls = tls;
            has_config = c;
            dialed = d;
            answered = rw (← same) e;
            one_hot = rw (← same) r.one_hot;
            ssl = r.ssl;
            code = r.code;
          }
    where
      serving :
          (b : Bool) (status : ℕ)
          → b ≡ (if not (status == env.serving) || false then false else true)
          → b ≡ true
          → status ≡ env.serving
      serving b status verdict ok = elim (Bool-cases (status == env.serving)) [
        | inl same ↦ ground arith
        | inr other ↦ let e' : b ≡ false = ground arith in cc
      ]

  after_resolution-Success :
      (grpc : GrpcProbe) (hp : String × String) (tls_config : TlsConfig) (resolved : Chosen Num)
      (reg : Registry Num)
      → env.new_tls_config grpc.tls_config ≡ some tls_config
      → Partly (Success grpc hp) (after_resolution fl env grpc hp.0 hp.1 tls_config resolved reg)
  after_resolution-Success grpc hp tls_config resolved reg c =
      Partly-ensure (Success grpc hp) (is_nil resolved.err) _ reg (λ e. cc)
        λ no_error.
          Partly-or_fault (Success grpc hp)
            (env.dial (dial_target grpc.tls hp.0 hp.1) (credentials grpc.tls hp.0 tls_config)) _ _
            λ conn d. checked-Success grpc hp tls_config conn _ _ c d refl

  -- A gRPC probe that succeeds has dialed the host of the target, with its port or with 80 or 443,
  -- and the health check answered that the configured service is serving. The gauge of the serving
  -- status is 1 and that of each other status 0, the status code is 0, and the gauge for TLS says
  -- whether the server's connection has a TLS state. It is assumed that no status has the empty name.
  pub probe_grpc-Served :
      (grpc : GrpcProbe) (target : String) (reg reg' : Registry Num)
      → probe_grpc fl env grpc target reg ≡ done true reg'
      → (url_host : String) × (env.url_host (with_scheme target) ≡ some url_host)
        × Served fl env grpc (host_port url_host (env.split_host_port url_host)) reg'
  unfolding probe_grpc
  probe_grpc-Served grpc target reg reg' h =
      Partly-elim P _
        (Partly-register P "probe_grpc_duration_seconds" _ _ (
          Partly-register P "probe_grpc_ssl" _ _ (
            Partly-register P "probe_grpc_status_code" _ _ (
              Partly-register P "probe_grpc_healthcheck_response" _ _ (
                Partly-register P "probe_ssl_earliest_cert_expiry" _ _ (
                  Partly-register P "probe_tls_version_info" _ _ (
                    Partly-register P "probe_ssl_last_chain_info" _ _ (
                      Partly-or_fail P (env.url_host (with_scheme target)) _ _ (λ e. cc)
                        (go _)))))))))
        h refl
    where
      P : Bool → Registry Num → Type 0
      P b after =
          b ≡ true
          → (url_host : String) × (env.url_host (with_scheme target) ≡ some url_host)
            × Served fl env grpc (host_port url_host (env.split_host_port url_host)) after

      go :
          (reg₁ : Registry Num) (url_host : String)
          → env.url_host (with_scheme target) ≡ some url_host
          → Partly P
              (probe_host fl env grpc (host_port url_host (env.split_host_port url_host)) reg₁)
      go reg₁ url_host parsed =
          let hp : String × String = host_port url_host (env.split_host_port url_host) in
          Partly-or_fail P (env.new_tls_config grpc.tls_config) _ reg₁ (λ e. cc)
            λ tls_config c. Partly-skip P _ _ λ resolved reg₂.
              Partly-weaken (Success grpc hp) P _
                (after_resolution-Success grpc hp tls_config resolved reg₂ c)
                λ b after served e. (url_host, parsed, served e)
