-- ===== src/Probers/Streams.antt =====
-- The probes for gRPC and TCP, and the gauges of a TLS connection, leave `probe_success` to the
-- handler.
use big_blackbox_exporter.Base.{
  ℕ, Bool, true, false, not, List, [], ◌∷◌, String, Option, some, none, str_eq, Option-cases, inl,
  inr,
}
use big_blackbox_exporter.Float64.{Float64}
use big_blackbox_exporter.Metrics.{Registry, Probe, return, is_nil}
use big_blackbox_exporter.Metrics.Inversion.{
  Partly, Partly-register, Partly-or_fail, Partly-or_fault, Partly-ensure,
}
use big_blackbox_exporter.Metrics.Unset.{IsUnset, Unset, Partly-if, Unset-bind, Unset-register_all}
use big_blackbox_exporter.Tls.{Time, ConnectionState}
use big_blackbox_exporter.Tls.Report.{set_last_chain_info, report_connection}
use big_blackbox_exporter.Protocol.{Chosen, choose_protocol}
use big_blackbox_exporter.Config.{GrpcProbe, TcpProbe, QueryResponse}
use big_blackbox_exporter.Grpc.{
  GrpcEnv, Checked, clear_statuses, set_status, report_peer, report_check, probe_grpc,
}
use big_blackbox_exporter.Tcp.Dial.{
  TcpEnv, Dialed, source_address, dial_from, dial_resolved, dial_host, dial_tcp,
}
use big_blackbox_exporter.Tcp.Entries.{
  Hit, scan, Next, on_hit, expect, say, start_tls, upgrade, run_entries,
}
use big_blackbox_exporter.Tcp.Probe.{report_dialed, converse, probe_tcp}
use big_blackbox_exporter.Probers.Sockets.{choose_protocol-Unset}

module _ (fl : Float64) (unix : Time → fl.Num) (fingerprint : List ℕ → String) where
  open fl use {Num}

  set_last_chain_info-Unset :
      (tls : ConnectionState) (reg : Registry Num)
      → IsUnset reg
      → Partly Unset (set_last_chain_info fl unix fingerprint tls reg)
  set_last_chain_info-Unset tls reg u = Partly-or_fault Unset _ _ reg λ sum _.
      Partly-or_fault Unset _ _ reg λ subject _.
        Partly-or_fault Unset _ _ reg λ issuer _. Partly-or_fault Unset _ _ reg λ dns_names _. u

  pub report_connection-Unset :
      (tls : ConnectionState) (reg : Registry Num)
      → IsUnset reg
      → Partly Unset (report_connection fl unix fingerprint tls reg)
  unfolding report_connection
  report_connection-Unset tls reg u =
      Unset-bind _ _ (Unset-register_all _ reg u) λ unit reg' u'. set_last_chain_info-Unset tls _ u'

module _ (fl : Float64) {Conn : Type 0} (env : GrpcEnv (fl.Num) Conn) where
  open fl use {Num}

  clear_statuses-Unset :
      (names : List String) (reg : Registry Num)
      → IsUnset reg
      → Partly Unset (clear_statuses fl env names reg)
  unfolding clear_statuses
  clear_statuses-Unset [] reg u = u
  clear_statuses-Unset (name ∷ names) reg u = clear_statuses-Unset names _ u

  report_peer-Unset :
      (peer : Option (Option ConnectionState)) (reg : Registry Num)
      → IsUnset reg
      → Partly Unset (report_peer fl env peer reg)
  report_peer-Unset none reg u = u
  report_peer-Unset (some none) reg u = u
  report_peer-Unset (some (some tls)) reg u =
      set_last_chain_info-Unset fl env.unix env.fingerprint tls _ u

  report_check-Unset :
      (checked : Checked) (reg : Registry Num)
      → IsUnset reg
      → Partly Unset (report_check fl env checked reg)
  unfolding report_check
  report_check-Unset checked reg u =
      Unset-bind _ _ (clear_statuses-Unset env.status_names _ u) λ unit reg₁ u₁.
        Unset-bind (set_status fl env checked.serving_status reg₁) _
          (Partly-if Unset (not (str_eq checked.serving_status "")) _ (return tt) reg₁ u₁ u₁)
          λ unit reg₂ u₂.
            Unset-bind (report_peer fl env checked.server_peer reg₂) _
              (report_peer-Unset checked.server_peer reg₂ u₂) λ unit reg₃ u₃. u₃

  pub probe_grpc-Unset :
      (grpc : GrpcProbe) (target : String) (reg : Registry Num)
      → IsUnset reg
      → Partly Unset (probe_grpc fl env grpc target reg)
  unfolding probe_grpc
  probe_grpc-Unset grpc target reg u = Partly-register Unset "probe_grpc_duration_seconds" _ _ (
      Partly-register Unset "probe_grpc_ssl" _ _ (
        Partly-register Unset "probe_grpc_status_code" _ _ (
          Partly-register Unset "probe_grpc_healthcheck_response" _ _ (
            Partly-register Unset "probe_ssl_earliest_cert_expiry" _ _ (
              Partly-register Unset "probe_tls_version_info" _ _ (
                Partly-register Unset "probe_ssl_last_chain_info" _ _ (
                  Partly-or_fail Unset _ _ _ u λ url_host _. Partly-or_fail Unset _ _ _ u λ tls _.
                    Unset-bind _ _ (choose_protocol-Unset fl _ _ _ _ _ _ u) λ resolved reg' u'.
                      Partly-ensure Unset (is_nil resolved.err) _ reg' u'
                        λ _. Partly-or_fault Unset _ _ _ λ conn _. report_check-Unset _ _ u')))))))

module _ (fl : Float64) {C : Type 0} (env : TcpEnv (fl.Num) C) where
  open fl use {Num}

  -- What follows leaves the gauge unset wherever it is.
  abbrev Keeps : {A : Type 0} → (A → Probe Num Bool) → Type 0
  Keeps {A} next = (a : A) (reg : Registry Num) → IsUnset reg → Partly Unset (next a reg)

  expect-Unset :
      (o : Option String) (qr : QueryResponse) (conn : C) (next : Next fl env) (reg : Registry Num)
      → ((send : String) → Keeps (next send))
      → IsUnset reg
      → Partly Unset (expect fl env o qr conn next reg)
  expect-Unset none qr conn next reg keeps u = keeps qr.send conn reg u
  expect-Unset (some re) qr conn next reg keeps u =
      Partly-ensure Unset _ _ reg u λ _. on_hit-Unset ((scan (env.find re) (env.incoming conn)).hit)
    where
      on_hit-Unset : (o : Option Hit) → Partly Unset (on_hit fl env re qr conn o next reg)
      on_hit-Unset none = u
      on_hit-Unset (some h) = keeps _ _ _ u

  upgrade-Unset :
      (config : TcpProbe) (target : String) (qr : QueryResponse) (conn : C)
      (next : C → Probe Num Bool) (reg : Registry Num)
      → Keeps next
      → IsUnset reg
      → Partly Unset (upgrade fl env config target qr conn next reg)
  upgrade-Unset config target qr conn next reg keeps u =
      Partly-if Unset qr.start_tls (start_tls fl env config target conn next) (next conn) reg
        (Partly-or_fail Unset _ _ reg u λ tls _. Partly-or_fail Unset _ _ reg u λ upgraded _.
          Unset-bind _ _ (report_connection-Unset fl env.unix env.fingerprint upgraded.1 reg u)
            λ unit reg' u'. keeps upgraded.0 reg' u')
        (keeps conn reg u)

  run_entries-Unset :
      (config : TcpProbe) (target : String) (entries : List QueryResponse)
      → Keeps (run_entries fl env config target entries)
  unfolding run_entries
  run_entries-Unset config target [] conn reg u = u
  run_entries-Unset config target (qr ∷ entries) conn reg u =
      expect-Unset qr.expect.regexp qr conn _ reg
        (λ send heard reg₁ u₁. Partly-or_fail Unset (say fl env send heard) _ reg₁ u₁ λ said _.
          upgrade-Unset config target qr said _ reg₁ (run_entries-Unset config target entries) u₁)
        u

  dial_resolved-Unset :
      (config : TcpProbe) (host port : String) (resolved : Chosen Num) (reg : Registry Num)
      → IsUnset reg
      → Partly Unset (dial_resolved env config host port resolved reg)
  dial_resolved-Unset config host port resolved reg u = elim (Option-cases resolved.err) [
    | inl well ↦ rw well (
        Partly-or_fault (Unset {A = Option (Dialed C)}) resolved.ip
          (λ addr. return (dial_from env config host port addr (source_address env config))) reg
          (λ addr _. u))
    | inr (e, bad) ↦ rw bad u
  ]

  dial_host-Unset :
      (config : TcpProbe) (o : Option (String × String)) (reg : Registry Num)
      → IsUnset reg
      → Partly Unset (dial_host fl env config o reg)
  dial_host-Unset config none reg u = u
  dial_host-Unset config (some (host, port)) reg u =
      Unset-bind {B = Option (Dialed C)}
        (choose_protocol fl env.resolver env.lookup_time config.ip_protocol
          config.ip_protocol_fallback host reg)
        (dial_resolved env config host port) (choose_protocol-Unset fl _ _ _ _ _ reg u)
        λ resolved reg' u'. dial_resolved-Unset config host port resolved reg' u'

  report_dialed-Unset :
      (tls : Bool) (state : Option ConnectionState) (reg : Registry Num)
      → IsUnset reg
      → Partly Unset (report_dialed fl env tls state reg)
  report_dialed-Unset false state reg u = u
  report_dialed-Unset true state reg u =
      Partly-or_fault Unset state _ reg
        λ s _. report_connection-Unset fl env.unix env.fingerprint s reg u

  pub probe_tcp-Unset :
      (config : TcpProbe) (target : String) (reg : Registry Num)
      → IsUnset reg
      → Partly Unset (probe_tcp fl env config target reg)
  unfolding probe_tcp dial_tcp converse
  probe_tcp-Unset config target reg u = Partly-register Unset "probe_failed_due_to_regex" _ reg (
      Unset-bind _ _ (dial_host-Unset config (env.split_host_port target) _ u) λ dialed reg₁ u₁.
        Partly-or_fail Unset dialed _ reg₁ u₁ λ d _. Partly-ensure Unset _ _ reg₁ u₁ λ _.
          Unset-bind _ _ (report_dialed-Unset config.tls d.1 reg₁ u₁)
            λ unit reg₂ u₂. run_entries-Unset config target config.query_response d.0 reg₂ u₂)
