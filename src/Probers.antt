-- ===== src/Probers.antt =====
-- prober/prober.go and prober/handler.go: the probes behind the map `Probers`, as `Handler` calls
-- them.
--
-- A probe gets the context with the timeout, the target, the query's values and the module. What
-- it calls outside the repository may depend on the context, and so on the timeout.
pub mod Queries
pub mod Nodes
pub mod Sockets
pub mod Streams
pub mod Https
pub mod Unset
pub mod Established
pub mod Requests
pub mod Answered
mod Tests
use big_blackbox_exporter.Base.{Bool, List, [], ◌∷◌, String, Option, some, none}
use big_blackbox_exporter.Base.Dict.{lookup}
use big_blackbox_exporter.Float64.{Float64}
use big_blackbox_exporter.Metrics.{Probe}
use big_blackbox_exporter.Config.{Module}
use big_blackbox_exporter.Handler.{
  ProbeFn, probe_http, probe_tcp, probe_icmp, probe_dns, probe_grpc, probe_ethrpc, probe_btcrpc,
  probe_json, probe_graphql, Values, get, Server,
}
use big_blackbox_exporter.Http.Probe.{HttpEnv, probe_http as run_http}
use big_blackbox_exporter.Tcp.Dial.{TcpEnv}
use big_blackbox_exporter.Tcp.Probe.{probe_tcp as run_tcp}
use big_blackbox_exporter.Icmp.Probe.{IcmpEnv, probe_icmp as run_icmp}
use big_blackbox_exporter.Dns.Probe.{DnsEnv, probe_dns as run_dns}
use big_blackbox_exporter.Grpc.{GrpcEnv, probe_grpc as run_grpc}
use big_blackbox_exporter.Ethrpc.Calls.{EthEnv, EthParams}
use big_blackbox_exporter.Ethrpc.Probe.{probe_ethrpc as run_ethrpc}
use big_blackbox_exporter.Btc.{BtcEnv, probe_btcrpc as run_btcrpc}
use big_blackbox_exporter.Json.{JsonEnv, probe_json as run_json, probe_graphql as run_graphql}

-- What the probes call outside the repository.
pub record Outside (V TcpConn GrpcConn EthClient Abi BtcClient Data : Type 0) : Type 0 where
  pub http : HttpEnv V
  pub tcp : TcpEnv V TcpConn
  pub icmp : IcmpEnv V
  pub dns : DnsEnv V
  pub grpc : GrpcEnv V GrpcConn
  pub eth : EthEnv V EthClient Abi
  pub btc : BtcEnv BtcClient
  pub json : JsonEnv V Data

abbrev pub all_of : Option (List String) → List String
all_of none = []
all_of (some values) = values

-- `params[key]`
unfoldable pub get_all : String → Values → List String
unfolding lookup
get_all key values = all_of (lookup key values)

-- The parameters that the probe of an Ethereum node reads.
abbrev pub eth_params : Values → EthParams
eth_params values = record {
  module_name = get "module" values;
  account = get_all "account" values;
  token = get "token" values;
  symbol = get "symbol" values;
  call = get_all "call" values;
}

module _ (fl : Float64) {TcpConn GrpcConn EthClient Abi BtcClient Data : Type 0}
    (env : fl.Num → Outside (fl.Num) TcpConn GrpcConn EthClient Abi BtcClient Data) where
  open fl use {Num}

  -- `prober(ctx, target, params, module, registry, sl)`
  unfoldable pub run_probe : ProbeFn → Num → String → Values → Module → Probe Num Bool
  run_probe probe_http t target params m = run_http fl ((env t).http) m.http target
  run_probe probe_tcp t target params m = run_tcp fl ((env t).tcp) m.tcp target
  run_probe probe_icmp t target params m = run_icmp fl ((env t).icmp) m.icmp target
  run_probe probe_dns t target params m = run_dns fl ((env t).dns) m.dns target
  run_probe probe_grpc t target params m = run_grpc fl ((env t).grpc) m.grpc target
  run_probe probe_ethrpc t target params m = run_ethrpc fl ((env t).eth) (eth_params params) target
  run_probe probe_btcrpc t target params m =
      run_btcrpc fl ((env t).btc) target (get "user" params) (get "pass" params)
        (get "module" params)
  run_probe probe_json t target params m = run_json fl ((env t).json) target (get "jmespath" params)
  run_probe probe_graphql t target params m =
      run_graphql fl ((env t).json) target (get_all "query" params)

  -- The server whose probes are these.
  abbrev pub with_probers : Server Num → Server Num
  with_probers s = record s { run = run_probe }
