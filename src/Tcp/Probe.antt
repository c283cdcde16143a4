-- ===== src/Tcp/Probe.antt =====
-- prober/tcp.go: `ProbeTCP`.
use big_blackbox_exporter.Base.{Bool, true, false, String, Option}
use big_blackbox_exporter.Float64.{Float64}
use big_blackbox_exporter.Tls.{ConnectionState}
use big_blackbox_exporter.Tls.Report.{report_connection}
use big_blackbox_exporter.Config.{TcpProbe}
use big_blackbox_exporter.Tcp.Dial.{TcpEnv, Dialed, dial_tcp}
use big_blackbox_exporter.Tcp.Entries.{run_entries}
use big_blackbox_exporter.Metrics.{
  Probe, ◌>>=◌, ◌>>◌, return, must_register, ensure, or_fail, or_fault,
}

module _ (fl : Float64) {C : Type 0} (env : TcpEnv (fl.Num) C) where
  open fl use {Num}

  -- The gauges of a connection that was dialed with TLS; `conn.(*tls.Conn)` panics on another.
  abbrev pub report_dialed : (tls : Bool) → Option ConnectionState → Probe Num (Unit {0})
  report_dialed false state = return tt
  report_dialed true state = or_fault state (report_connection fl env.unix env.fingerprint)

  -- What follows dialing.
  unfoldable pub converse : TcpProbe → (target : String) → Dialed C → Probe Num Bool
  converse config target dialed = ensure (env.set_deadline dialed.0) (
      report_dialed config.tls dialed.1
      >> run_entries fl env config target config.query_response dialed.0)

  unfoldable pub probe_tcp : TcpProbe → (target : String) → Probe Num Bool
  probe_tcp config target = do
    must_register "probe_failed_due_to_regex"
    dialed ← dial_tcp fl env config target
    or_fail dialed (converse config target)
