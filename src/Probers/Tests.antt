-- ===== src/Probers/Tests.antt =====
-- Requests to a server with one JSON module, whose probe gets a body, and the theorems there.
use big_blackbox_exporter.Base.{
  ◌≡◌, ◌≢◌, refl, true, false, [], ◌∷◌, some, none, str_eq, if◌then◌else◌,
}
use big_blackbox_exporter.Base.Int.{ℤ, pos}
use big_blackbox_exporter.Base.Text.{contains_text}
use big_blackbox_exporter.Base.Dict.{lookup}
use big_blackbox_exporter.Float64.Millis.{millis}
use big_blackbox_exporter.Config.{HttpClientConfig, Module, default_module}
use big_blackbox_exporter.History.{new_history}
use big_blackbox_exporter.Metrics.{Registry, new_registry, return, must_register, or_fail, or_fault}
use big_blackbox_exporter.Protocol.{lookup_error, Resolver}
use big_blackbox_exporter.Http.Response.{ResponseEnv}
use big_blackbox_exporter.Http.Probe.{HttpEnv}
use big_blackbox_exporter.Tcp.Dial.{TcpEnv}
use big_blackbox_exporter.Icmp.Probe.{IcmpEnv}
use big_blackbox_exporter.Dns.Probe.{DnsEnv}
use big_blackbox_exporter.Grpc.{GrpcEnv, rpc_error}
use big_blackbox_exporter.Ethrpc.Calls.{EthEnv}
use big_blackbox_exporter.Btc.{BtcEnv}
use big_blackbox_exporter.Json.{number, JsonEnv, convert, report_body, probe_json}
use big_blackbox_exporter.Handler.{
  get, Request, State, metrics, Served, served, panicked, Server, or_http_2xx, probers,
  probe_with_gauges, apply_http_hostname, debug_output, handler,
}
use big_blackbox_exporter.Handler.Timeout.{get_timeout}
use big_blackbox_exporter.Handler.Requests.{Serves}
use big_blackbox_exporter.Probers.{Outside, run_probe, with_probers}
use big_blackbox_exporter.Probers.Answered.{by_dns, handler-ne-panicked}
use big_blackbox_exporter.Probers.Requests.{probe-Serves}

abbrev resolver : Resolver
resolver = record {
  lookup_ip = λ _ _. lookup_error "down";
  lookup_ip_addr = λ _. lookup_error "down";
}

abbrev response_env : ResponseEnv ℤ
response_env = record {
  matches = λ _ _. false;
  to_lower = λ s. s;
  brotli = λ b. b;
  flate = λ b. b;
  gzip = λ b. some b;
  gzip_rest = λ b. b;
  max_bytes = λ _ b. b;
  parse_time = λ _. none;
  unix = λ t. t;
  fingerprint = λ _. "00";
}

abbrev http_env : HttpEnv ℤ
http_env = record {
  on_response = response_env;
  parse_url = λ _. none;
  with_host = λ _ host. host;
  resolver = resolver;
  lookup_time = pos 1;
  ip_text = λ _. "";
  can_make_client = λ _. true;
  can_make_round_tripper = λ _. true;
  can_make_jar = true;
  open_file = λ _. none;
  can_make_request = λ _ _. true;
  user_agent = "Blackbox Exporter/";
  exchange = λ _ _ _ _. record { response = none; errored = true; redirects = 0; steps = [] };
  now = pos 20;
  elapsed = λ to from. to;
}

abbrev tcp_env : TcpEnv ℤ (Unit {0})
tcp_env = record {
  split_host_port = λ _. none;
  resolver = resolver;
  lookup_time = pos 1;
  parse_ip = λ _. none;
  ip_text = λ _. "";
  new_tls_config = λ _. none;
  dial = λ _. none;
  dial_tls = λ _ _. none;
  set_deadline = λ _. true;
  incoming = λ _. record { lines = []; failed = true };
  consume = λ _ c. c;
  send = λ _ _. none;
  handshake = λ _ _. none;
  find = λ _ _. none;
  expand = λ _ template _ _. template;
  unix = λ t. t;
  fingerprint = λ _. "00";
}

abbrev icmp_env : IcmpEnv ℤ
icmp_env = record {
  resolver = resolver;
  lookup_time = pos 1;
  goos = "linux";
  max_alloc = 281474976710656;
  parse_ip = λ _. none;
  ip_text = λ _. "<nil>";
  addr_text = λ _ _. "";
  icmp_listen = λ _ _. false;
  net_listen = λ _ _. false;
  new_raw_conn = false;
  set_control_message = false;
  icmp_id = 7;
  icmp_sequence = 4;
  marshal = λ _. none;
  setup_seconds = pos 2;
  write = λ _. none;
  set_read_deadline = true;
  rtt_seconds = pos 3;
}

abbrev dns_env : DnsEnv ℤ
dns_env = record {
  string_to_class = λ _. none;
  string_to_type = λ _. none;
  string_to_rcode = λ _. none;
  fqdn = λ s. s;
  matches = λ _ _. none;
  split_host_port = λ _. none;
  parse_ip = λ _. none;
  ip_text = λ _. "";
  new_tls_config = λ _. none;
  resolver = resolver;
  lookup_time = pos 1;
  exchange = λ _ _ _. none;
  connect_seconds = pos 1;
  rtt_seconds = pos 1;
}

abbrev grpc_env : GrpcEnv ℤ (Unit {0})
grpc_env = record {
  url_host = λ _. none;
  split_host_port = λ _. none;
  new_tls_config = λ _. none;
  resolver = resolver;
  lookup_time = pos 1;
  dial = λ _ _. none;
  check = λ _ _. rpc_error 14;
  serving = 1;
  status_name = λ _. "UNKNOWN";
  status_names = "UNKNOWN" ∷ [];
  check_seconds = pos 1;
  unix = λ t. t;
  fingerprint = λ _. "00";
}

abbrev eth_env : EthEnv ℤ (Unit {0}) (Unit {0})
eth_env = record {
  dial = λ _. none;
  chain_id = λ _. none;
  gas_price = λ _. none;
  format_int = λ _. "1";
  block_number = λ _. 0;
  batch_call = λ _ _. none;
  is_hex_address = λ _. false;
  abi_json = λ _. none;
  methods = λ _. [];
  pack = λ _ _ _. none;
  hex_encode = λ _. "";
  arguments = record { hex_to_address = λ _. []; parse_int = λ _. pos 0; parse_bool = λ _. false };
  set_string = λ _. pos 0;
  wei_to_ether = λ n. n;
  to_float = λ n. n;
}

abbrev btc_env : BtcEnv (Unit {0})
btc_env = record { new_client = λ _. none; get_block_count = λ _. none }

-- The body of the server gives 7 under the path "n".
abbrev json_env : JsonEnv ℤ (Unit {0})
json_env = record {
  get_body = λ url. if str_eq url "http://server" then some "{}" else none;
  post_body = λ _ _. none;
  decode = λ _. some tt;
  search = λ path _. if str_eq path "n" then some (number (pos 7)) else none;
}

-- Only the server of the JSON module answers.
abbrev env : ℤ → Outside ℤ (Unit {0}) (Unit {0}) (Unit {0}) (Unit {0}) (Unit {0}) (Unit {0})
env _ = record {
  http = http_env;
  tcp = tcp_env;
  icmp = icmp_env;
  dns = dns_env;
  grpc = grpc_env;
  eth = eth_env;
  btc = btc_env;
  json = json_env;
}

abbrev client : HttpClientConfig
client = record {
  tls_config = record { server_name = "" };
  follow_redirects = true;
  proxy_url = none;
  proxy_from_environment = false;
}

abbrev dns_module : Module
dns_module = record (default_module client) { prober = "dns"; timeout = pos 4000 }

abbrev server : Server ℤ
server = record {
  config = record {
    modules =
        ("json", record (default_module client) { prober = "json"; timeout = pos 4000 })
        ∷ ("dns", dns_module)
        ∷ [];
  };
  timeout_offset = pos 500;
  run = λ _ _ _ _ _. return false;
  messages = λ _ _ _ _ _. (("level", "info") ∷ ("msg", "probe") ∷ []) ∷ [];
  log_env = record { logfmt = λ _ _. "line"; allows = λ _. false };
  number_text = λ _. "1";
  gather = λ _. ("probe_success 1", none);
  marshal = λ _. ("prober: json", none);
  duration = pos 3;
}

abbrev request : Request
request = record {
  query = ("module", "json" ∷ []) ∷ ("target", "server" ∷ []) ∷ ("jmespath", "n" ∷ []) ∷ [];
  scrape_timeout = "10";
}

abbrev state : State
state = record { history = new_history 2; module_unknown = some 0 }

answer : Served ℤ
unfolding handler get lookup get_timeout probers apply_http_hostname probe_with_gauges debug_output
    must_register run_probe probe_json report_body convert or_fail or_fault contains_text
answer = handler millis (with_probers millis env server) request none state

probe-Serves_example :
    Serves millis
      (with_probers millis env server)
      request.query
      "10"
      (or_http_2xx (get "module" request.query))
      (get "debug" request.query)
      state
      (handler millis (with_probers millis env server) request none state)
probe-Serves_example = probe-Serves millis env server request none state

registry_of : Served ℤ → Registry ℤ
registry_of (served (metrics reg) st) = reg
registry_of _ = new_registry

state_of : Served ℤ → State
state_of (served response st) = st
state_of panicked = state

abbrev dns_request : Request
dns_request = record {
  query = ("module", "dns" ∷ []) ∷ ("target", "server" ∷ []) ∷ [];
  scrape_timeout = "10";
}

configured :
    lookup (or_http_2xx (get "module" dns_request.query)) server.config.modules ≡ some dns_module
unfolding lookup get
configured = refl

handler-ne-panicked_example :
    handler millis (with_probers millis env server) dns_request none state ≢ panicked
handler-ne-panicked_example =
    handler-ne-panicked millis env server (λ t network host e. cc) (λ t network host e. cc)
      (λ t network host e. cc) 281474976710656 (λ t. refl) (λ t m bytes e. absurd cc) dns_request
      none state dns_module configured (by_dns refl)
