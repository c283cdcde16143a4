-- ===== src/Probers/Established.antt =====
-- What has happened where a probe of the map `Probers` succeeds, whichever it is.
use big_blackbox_exporter.Base.{ℕ, ◌≡◌, true, false, List, [], ◌∷◌, String, some, All, str_eq}
use big_blackbox_exporter.Base.Text.{with_scheme}
use big_blackbox_exporter.Float64.{Float64}
use big_blackbox_exporter.Metrics.{Registry, done, value_of}
use big_blackbox_exporter.Config.{Module}
use big_blackbox_exporter.Ip.{IpAddr}
use big_blackbox_exporter.Handler.{
  ProbeFn, probe_http, probe_tcp, probe_icmp, probe_dns, probe_grpc, probe_ethrpc, probe_btcrpc,
  probe_json, probe_graphql, Values, get,
}
use big_blackbox_exporter.Http.Probe.Soundness.{IsProbed, probe_http-IsProbed}
use big_blackbox_exporter.Tcp.Upgrade.{Conversed, probe_tcp-Conversed}
use big_blackbox_exporter.Icmp.Probe.Soundness.{IsResolved, Echoed, probe_icmp-Echoed}
use big_blackbox_exporter.Dns.Probe.Soundness.{Answered, probe_dns-Answered}
use big_blackbox_exporter.Grpc.{host_port}
use big_blackbox_exporter.Grpc.Soundness.{Served, probe_grpc-Served}
use big_blackbox_exporter.Ethrpc.Soundness.{IsQueried as IsEthQueried, probe_ethrpc-IsQueried}
use big_blackbox_exporter.Btc.Soundness.{IsQueried as IsBtcQueried, probe_btcrpc-IsQueried}
use big_blackbox_exporter.Json.{parse_query}
use big_blackbox_exporter.Json.Soundness.{
  measure, answer, IsAnswered, last_number, probe_json-measure, probe_graphql-Measured,
}
use big_blackbox_exporter.Probers.{Outside, get_all, eth_params, run_probe}

module _ (fl : Float64) {TcpConn GrpcConn EthClient Abi BtcClient Data : Type 0}
    (env : fl.Num → Outside (fl.Num) TcpConn GrpcConn EthClient Abi BtcClient Data) where
  open fl use {Num}

  -- A gRPC probe's server is serving.
  abbrev GrpcServed : Num → String → Module → Registry Num → Type 0
  GrpcServed t target m reg =
      let grpc = (env t).grpc in
      (url_host : String) × (grpc.url_host (with_scheme target) ≡ some url_host)
      × Served fl grpc m.grpc (host_port url_host (grpc.split_host_port url_host)) reg

  -- All of a GraphQL probe's queries are answered, and each gauge shows the last number.
  abbrev GraphqlAnswered : Num → String → List String → Registry Num → Registry Num → Type 0
  GraphqlAnswered t target queries reg reg' =
      let json = (env t).json in
      All (λ q. IsAnswered fl json (answer fl json (with_scheme target) (parse_query q))) queries
      × ((path : String)
          → value_of "probe_graphql_query" (with_scheme target ∷ path ∷ []) reg'
            ≡ last_number fl json (with_scheme target) path queries
                (value_of "probe_graphql_query" (with_scheme target ∷ path ∷ []) reg))

  -- What the probe promises of its target, the query and the module, with the gauges in `reg'`.
  abbrev pub Established :
      ProbeFn → Num → String → Values → Module → Registry Num → Registry Num → Type 0
  Established probe_http t target params m reg reg' = IsProbed fl ((env t).http) m.http target
  Established probe_tcp t target params m reg reg' = Conversed fl ((env t).tcp) m.tcp target
  Established probe_icmp t target params m reg reg' =
      (addr : IpAddr) × IsResolved fl ((env t).icmp) m.icmp target addr
      × Echoed fl ((env t).icmp) m.icmp addr reg'
  Established probe_dns t target params m reg reg' = Answered fl ((env t).dns) m.dns target reg'
  Established probe_grpc t target params m reg reg' = GrpcServed t target m reg'
  Established probe_ethrpc t target params m reg reg' =
      IsEthQueried fl ((env t).eth) (eth_params params) (with_scheme target) reg'
  Established probe_btcrpc t target params m reg reg' =
      IsBtcQueried fl ((env t).btc) target (get "user" params) (get "pass" params)
        (get "module" params) reg'
  Established probe_json t target params m reg reg' =
      (v : Num) × (measure fl ((env t).json) (get "jmespath" params)
          (((env t).json).get_body (with_scheme target))
        ≡ some v)
      × (value_of "probe_json_jmespath" (with_scheme target ∷ get "jmespath" params ∷ []) reg'
          ≡ some v)
  Established probe_graphql t target params m reg reg' =
      GraphqlAnswered t target (get_all "query" params) reg reg'

  pub run_probe-Established :
      ((t : Num) (status : ℕ) → str_eq (((env t).grpc).status_name status) "" ≡ false)
      → (p : ProbeFn) (t : Num) (target : String) (params : Values) (m : Module)
        (reg reg' : Registry Num)
      → run_probe fl env p t target params m reg ≡ done true reg'
      → Established p t target params m reg reg'
  unfolding run_probe
  run_probe-Established named probe_http t target params m reg reg' h =
      probe_http-IsProbed fl ((env t).http) m.http target reg reg' h
  run_probe-Established named probe_tcp t target params m reg reg' h =
      probe_tcp-Conversed fl ((env t).tcp) m.tcp target reg reg' h
  run_probe-Established named probe_icmp t target params m reg reg' h =
      probe_icmp-Echoed fl ((env t).icmp) m.icmp target reg reg' h
  run_probe-Established named probe_dns t target params m reg reg' h =
      probe_dns-Answered fl ((env t).dns) m.dns target reg reg' h
  run_probe-Established named probe_grpc t target params m reg reg' h =
      probe_grpc-Served fl ((env t).grpc) (named t) m.grpc target reg reg' h
  run_probe-Established named probe_ethrpc t target params m reg reg' h =
      probe_ethrpc-IsQueried fl ((env t).eth) _ target reg reg' h
  run_probe-Established named probe_btcrpc t target params m reg reg' h =
      probe_btcrpc-IsQueried fl ((env t).btc) target _ _ _ reg reg' h
  run_probe-Established named probe_json t target params m reg reg' h =
      probe_json-measure fl ((env t).json) target _ reg reg' h
  run_probe-Established named probe_graphql t target params m reg reg' h =
      probe_graphql-Measured fl ((env t).json) target _ reg reg' h
