-- ===== src/Handler.antt =====
-- prober/handler.go: `Handler`, the endpoint /probe.
--
-- The probes themselves are the parameter `run` of a `Server`: it ends with the verdict and the
-- registry, or in a panic, and `messages` is what the probe itself has logged.
-- The registry's gathering, the text format of the metrics and YAML belong to other packages and
-- are fields of the same record. The measured duration is an input. The texts of the error
-- responses are those of the source without the values that it formats into them.
pub mod Timeout
pub mod Host
pub mod Logging
pub mod Gauges
pub mod Requests
mod Tests
use Prim.Native.String.{◌++◌ as ◌<>◌}
use big_blackbox_exporter.Base.{
  ℕ, ◌+◌, Bool, true, false, not, ◌&&◌, List, [], ◌∷◌, String, Option, some, none, str_eq,
  if◌then◌else◌,
}
use big_blackbox_exporter.Base.Int.{ℤ, pos}
use big_blackbox_exporter.Base.Dict.{lookup}
use big_blackbox_exporter.Float64.{Float64}
use big_blackbox_exporter.Config.{TlsConfig, Module, Config}
use big_blackbox_exporter.History.{ResultHistory, add}
use big_blackbox_exporter.Metrics.{
  Registry, new_registry, Outcome, done, panic, Probe, ◌>>=◌, ◌>>◌, return, must_register,
  set_gauge,
}
use Timeout.{get_timeout}
use Host.{set_http_host}
use Logging.{Keyvals, LogEnv, ScrapeLogger, probe_log}

-- The functions in the map `Probers`.
pub data ProbeFn : Type 0 where
  probe_http probe_tcp probe_icmp probe_dns probe_grpc probe_ethrpc probe_btcrpc : ProbeFn
  probe_json probe_graphql : ProbeFn

-- `Probers`
unfoldable pub probers : String → Option ProbeFn
unfolding lookup
probers name = lookup name (
    ("http", probe_http)
    ∷ ("tcp", probe_tcp)
    ∷ ("icmp", probe_icmp)
    ∷ ("dns", probe_dns)
    ∷ ("grpc", probe_grpc)
    ∷ ("ethrpc", probe_ethrpc)
    ∷ ("btcrpc", probe_btcrpc)
    ∷ ("json", probe_json)
    ∷ ("graphql", probe_graphql)
    ∷ [])

-- `url.Values`
abbrev pub Values : Type 0
Values = List (String × List String)

abbrev first_value : Option (List String) → String
first_value (some (v ∷ _)) = v
first_value _ = ""

-- `Values.Get`
unfoldable pub get : String → Values → String
unfolding lookup
get key values = first_value (lookup key values)

-- The URL's query, and the header X-Prometheus-Scrape-Timeout-Seconds.
pub record Request : Type 0 where
  pub query : Values
  pub scrape_timeout : String

-- The history, and the counter of unknown modules unless it is nil.
pub record State : Type 0 where
  pub history : ResultHistory
  pub module_unknown : Option ℕ

pub data Response (V : Type 0) : Type 0 where
  -- `http.Error`
  http_error : String → ℕ → Response V
  -- the debug output as plain text
  debug_text : String → Response V
  -- `promhttp.HandlerFor(registry)`
  metrics : Registry V → Response V

-- A probe may panic, which ends the request and leaves the state as it is.
pub data Served (V : Type 0) : Type 0 where
  served : Response V → State → Served V
  panicked : Served V

pub record Server (V : Type 0) : Type 0 where
  pub config : Config
  pub timeout_offset : V
  pub run : ProbeFn → V → String → Values → Module → Probe V Bool
  pub messages : ProbeFn → V → String → Values → Module → List Keyvals
  pub log_env : LogEnv
  pub number_text : V → String
  -- the text of the metrics, and the error of `Gather`
  pub gather : Registry V → String × Option String
  -- `yaml.Marshal`
  pub marshal : Module → String × Option String
  pub duration : V

abbrev report_error : String → Option String → String
report_error prefix none = ""
report_error prefix (some e) = prefix <> e <> "\n"

-- `DebugOutput`
unfoldable pub debug_output : {V : Type 0} → Server V → Module → String → Registry V → String
debug_output s m logs reg =
    "Logs for the probe:\n"
    <> logs
    <> "\n\n\nMetrics that would have been returned:\n"
    <> report_error "Error gathering metrics: " (s.gather reg).1
    <> (s.gather reg).0
    <> "\n\n\nModule configuration:\n"
    <> report_error "Error marshalling config: " (s.marshal m).1
    <> (s.marshal m).0

-- The parameters come from the request's query where the caller gives none.
abbrev pub params_or_query : Option Values → Request → Values
params_or_query none r = r.query
params_or_query (some params) r = params

abbrev pub or_http_2xx : String → String
or_http_2xx name = if str_eq name "" then "http_2xx" else name

abbrev pub count_unknown : Option ℕ → Option ℕ
count_unknown none = none
count_unknown (some n) = some (n + 1)

-- The module with the `hostname` parameter applied; none is the error of `setHTTPHost`.
abbrev pub with_headers : Module → Option (List (String × String)) → Option Module
with_headers m none = none
with_headers m (some headers) = some (record m { http = record m.http { headers = headers } })

unfoldable pub apply_http_hostname : String → Module → Option Module
unfolding set_http_host
apply_http_hostname hostname m =
    if str_eq m.prober "http" && not (str_eq hostname "")
    then with_headers m (set_http_host hostname m.http.headers)
    else some m

unfoldable pub apply_tcp_hostname : String → Module → Module
apply_tcp_hostname hostname m =
    if str_eq m.prober "tcp" && not (str_eq hostname "")
    then (if str_eq m.tcp.tls_config.server_name ""
        then record m { tcp = record m.tcp { tls_config = record { server_name = hostname } } }
        else m)
    else m

module _ (fl : Float64) where
  open fl use {Num, of_int}

  -- The probe in its own registry, between the gauges of the handler.
  unfoldable pub probe_with_gauges :
      Server Num → ProbeFn → Num → String → Values → Module → Probe Num Bool
  unfolding must_register
  probe_with_gauges s p timeout target params m = do
    must_register "probe_success"
    must_register "probe_duration_seconds"
    success ← s.run p timeout target params m
    set_gauge "probe_duration_seconds" [] s.duration
    if success then set_gauge "probe_success" [] (of_int (pos 1)) else return tt
    return success

  -- The scrape logger at the end of the probe.
  unfoldable pub scrape_log :
      Server Num
      → ProbeFn
      → Num
      → String
      → Values
      → String
      → Module
      → (success : Bool) → ScrapeLogger
  unfolding probe_log
  scrape_log s p timeout target params module_name m success =
      probe_log s.log_env module_name target m.prober (s.number_text timeout)
        (s.messages p timeout target params m) success (s.number_text s.duration)

  -- After the probe: the history and the response.
  abbrev pub finish :
      Server Num
      → Request
      → String
      → String
      → (logs : Bool → String) → Module
      → State
      → Outcome Num Bool
      → Served Num
  finish s r module_name target logs m st panic = panicked
  finish s r module_name target logs m st (done success reg) =
      let output = debug_output s m (logs success) reg in
      served (if str_eq (get "debug" r.query) "true" then debug_text output else metrics reg)
        (record st { history = add module_name target output success st.history })

  abbrev pub with_hostname :
      Server Num
      → Request
      → Values
      → String
      → String
      → Num
      → ProbeFn
      → State
      → Option Module
      → Served Num
  with_hostname s r params module_name target timeout p st none =
      served
        (http_error
          "host header defined both in module configuration and with URL-parameter 'hostname'" 400)
        st
  with_hostname s r params module_name target timeout p st (some m) =
      let m' = apply_tcp_hostname (get "hostname" params) m in
      finish s r module_name target
        (λ success. (scrape_log s p timeout target params module_name m' success).buffer) m' st
        (probe_with_gauges s p timeout target params m' new_registry)

  abbrev pub with_prober :
      Server Num
      → Request
      → Values
      → String
      → String
      → Num
      → Module
      → State
      → Option ProbeFn
      → Served Num
  with_prober s r params module_name target timeout m st none =
      served (http_error "Unknown prober" 400) st
  with_prober s r params module_name target timeout m st (some p) =
      with_hostname s r params module_name target timeout p st
        (apply_http_hostname (get "hostname" params) m)

  abbrev pub with_timeout :
      Server Num → Request → Values → String → Module → State → Option Num → Served Num
  with_timeout s r params module_name m st none =
      served (http_error "Failed to parse timeout from Prometheus header" 500) st
  with_timeout s r params module_name m st (some timeout) =
      if str_eq (get "target" params) ""
      then served (http_error "Target parameter is missing" 400) st
      else with_prober s r params module_name (get "target" params) timeout m st (probers m.prober)

  abbrev pub with_module :
      Server Num → Request → Values → String → State → Option Module → Served Num
  with_module s r params module_name st none =
      served (http_error "Unknown module" 400)
        (record st { module_unknown = count_unknown st.module_unknown })
  with_module s r params module_name st (some m) =
      with_timeout s r params module_name m st
        (get_timeout fl r.scrape_timeout m.timeout s.timeout_offset)

  unfoldable pub handler : Server Num → Request → Option Values → State → Served Num
  handler s r params st =
      let values = params_or_query params r in
      let module_name = or_http_2xx (get "module" values) in
      with_module s r values module_name st (lookup module_name s.config.modules)
