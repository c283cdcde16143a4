-- ===== src/Probers/Unset.antt =====
-- No probe of the map `Probers` sets the gauge `probe_success`.
use big_blackbox_exporter.Base.{String}
use big_blackbox_exporter.Float64.{Float64}
use big_blackbox_exporter.Metrics.{Registry}
use big_blackbox_exporter.Metrics.Inversion.{Partly}
use big_blackbox_exporter.Metrics.Unset.{IsUnset, Unset}
use big_blackbox_exporter.Config.{Module}
use big_blackbox_exporter.Handler.{
  ProbeFn, probe_http, probe_tcp, probe_icmp, probe_dns, probe_grpc, probe_ethrpc, probe_btcrpc,
  probe_json, probe_graphql, Values,
}
use big_blackbox_exporter.Probers.{Outside, run_probe}
use big_blackbox_exporter.Probers.Queries.{
  probe_btcrpc-Unset, probe_graphql-Unset, probe_json-Unset,
}
use big_blackbox_exporter.Probers.Nodes.{probe_ethrpc-Unset}
use big_blackbox_exporter.Probers.Sockets.{probe_dns-Unset, probe_icmp-Unset}
use big_blackbox_exporter.Probers.Streams.{probe_grpc-Unset, probe_tcp-Unset}
use big_blackbox_exporter.Probers.Https.{probe_http-Unset}

module _ (fl : Float64) {TcpConn GrpcConn EthClient Abi BtcClient Data : Type 0}
    (env : fl.Num → Outside (fl.Num) TcpConn GrpcConn EthClient Abi BtcClient Data) where
  open fl use {Num}

  pub run_probe-Unset :
      (p : ProbeFn) (t : Num) (target : String) (params : Values) (m : Module) (reg : Registry Num)
      → IsUnset reg
      → Partly Unset (run_probe fl env p t target params m reg)
  unfolding run_probe
  run_probe-Unset probe_http t target params m reg u =
      probe_http-Unset fl ((env t).http) m.http target reg u
  run_probe-Unset probe_tcp t target params m reg u =
      probe_tcp-Unset fl ((env t).tcp) m.tcp target reg u
  run_probe-Unset probe_icmp t target params m reg u =
      probe_icmp-Unset fl ((env t).icmp) m.icmp target reg u
  run_probe-Unset probe_dns t target params m reg u =
      probe_dns-Unset fl ((env t).dns) m.dns target reg u
  run_probe-Unset probe_grpc t target params m reg u =
      probe_grpc-Unset fl ((env t).grpc) m.grpc target reg u
  run_probe-Unset probe_ethrpc t target params m reg u =
      probe_ethrpc-Unset fl ((env t).eth) _ target reg u
  run_probe-Unset probe_btcrpc t target params m reg u =
      probe_btcrpc-Unset fl ((env t).btc) target _ _ _ reg u
  run_probe-Unset probe_json t target params m reg u =
      probe_json-Unset fl ((env t).json) target _ reg u
  run_probe-Unset probe_graphql t target params m reg u =
      probe_graphql-Unset fl ((env t).json) target _ reg u
