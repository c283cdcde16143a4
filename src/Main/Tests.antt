-- ===== src/Main/Tests.antt =====
-- A short run of the exporter, with a probe, a reload that fails and the links of the front page.
use mathlib.Core.List.{Memᴰ}
use big_blackbox_exporter.Base.{
  ◌+◌, ◌≡◌, refl, true, false, List, [], ◌∷◌, ◌++◌, String, some, none, str_eq, arith,
  if◌then◌else◌,
}
use big_blackbox_exporter.Base.Int.{ℤ, pos}
use big_blackbox_exporter.Base.Dict.{lookup}
use big_blackbox_exporter.Float64.Millis.{millis}
use big_blackbox_exporter.Config.{HttpClientConfig, default_module, Config}
use big_blackbox_exporter.Config.Unmarshal.{Result as Loaded, ok, err}
use big_blackbox_exporter.Config.Reload.{new_safe_config, reload_config}
use big_blackbox_exporter.History.{Result, new_history, list, add}
use big_blackbox_exporter.Handler.{
  Request, Server, debug_output, probe_with_gauges, handler, get, probers, apply_http_hostname,
}
use big_blackbox_exporter.Handler.Timeout.{get_timeout}
use big_blackbox_exporter.Metrics.{return, must_register}
use Prim.Native.String.{◌++◌ as ◌<>◌}
use big_blackbox_exporter.Main.Url.{
  UrlEnv, compute_external_url, route_prefix, trim_right_slash, ends_with,
}
use big_blackbox_exporter.Main.Run.{
  Flags, exited, crashed, term, setup, exit_status, SetupOf, setup-SetupOf,
}
use big_blackbox_exporter.Main.Routes.{routes, Joins, ends_with-append}
use big_blackbox_exporter.Main.Mux.{register, unless_clash, register-routes}
use big_blackbox_exporter.Main.Prefix.{IsPrefix, route_prefix-IsPrefix}
use big_blackbox_exporter.Main.Pages.{plain, Row, row, rows, logs}
use big_blackbox_exporter.Main.Exporter.{Exporter, Event, hang_up, probe_request, start, handle}
use big_blackbox_exporter.Main.Reachable.{loaded_by, results_on, Reachable, started, stepped}
use big_blackbox_exporter.Main.Links.{IsCurrent, Reachable-IsCurrent, logs-row}

abbrev url_env : UrlEnv (Unit {0})
url_env = record {
  hostname = some "host";
  split_host_port = λ _. some ("", "9115");
  parse =
      λ u. some (record { path = if◌then◌else◌ (str_eq u "http://host:9115/") "/" u; rest = tt });
}

urls :
    (compute_external_url url_env "" ":9115" ≡ some (record { path = ""; rest = tt }))
    × (compute_external_url url_env "'x" ":9115" ≡ none)
    × (compute_external_url url_env "x/y/" ":9115" ≡ some (record { path = "/x/y"; rest = tt }))
    × (route_prefix "" "/x" ≡ "/x/")
    × (route_prefix "/" "/x" ≡ "/")
unfolding compute_external_url route_prefix
urls = (refl, refl, refl, refl, refl)

abbrev client : HttpClientConfig
client = record {
  tls_config = record { server_name = "" };
  follow_redirects = true;
  proxy_url = none;
  proxy_from_environment = false;
}

abbrev config : Config
config = record {
  modules = ("dns", record (default_module client) { prober = "dns"; timeout = pos 4000 }) ∷ [];
}

abbrev server : Server ℤ
server = record {
  config = record { modules = [] };
  timeout_offset = pos 500;
  run = λ _ _ _ _ _. return true;
  messages = λ _ _ _ _ _. (("level", "info") ∷ ("msg", "probe") ∷ []) ∷ [];
  log_env = record { logfmt = λ _ _. "line"; allows = λ _. false };
  number_text = λ _. "1";
  gather = λ _. ("probe_success 1", none);
  marshal = λ _. ("prober: dns", none);
  duration = pos 3;
}

abbrev request : Request
request = record {
  query = ("module", "dns" ∷ []) ∷ ("target", "server" ∷ []) ∷ [];
  scrape_timeout = "10";
}

abbrev initial : Exporter
initial = record {
  sc = (reload_config (ok config) (pos 5) (new_safe_config (pos 0))).0;
  served_state = record { history = new_history 2; module_unknown = some 0 };
}

starts : start (ok config) (pos 5) (pos 0) 2 (some 0) ≡ some initial
unfolding start
starts = refl

abbrev first_event : Event ℤ
first_event = probe_request server request

abbrev second_event : Event ℤ
second_event = hang_up (err "no such file") (pos 7)

abbrev final : Exporter
final = (handle millis second_event (handle millis first_event initial).0).0

abbrev loads : List (Loaded Config × ℤ)
loads = (((ok config, pos 5) ∷ []) ++ loaded_by first_event) ++ loaded_by second_event

reached : Reachable millis 2 loads ((0 + 1) + 1) final
reached =
    stepped _ _ _ second_event
      (stepped _ _ _ first_event (started config (pos 5) (pos 0) (some 0) initial starts))

Reachable-IsCurrent_example : IsCurrent 2 loads 2 (results_on millis 2 loads 2 final reached) final
Reachable-IsCurrent_example = Reachable-IsCurrent millis 2 loads 2 final reached

abbrev shown : Row
shown = record { module_name = "dns"; target = "server"; success = "Success"; id = pos 0 }

is_shown : Memᴰ shown (rows (λ s. s) (list final.served_state.history))
unfolding handle handler rows list add lookup get get_timeout probers apply_http_hostname
    probe_with_gauges must_register debug_output reload_config
is_shown = Memᴰ.head refl

logs-row_example :
    (r : Result) × Memᴰ r (list final.served_state.history)
    × (shown ≡ row (λ s. s) r)
    × (logs (some shown.id) "" final.served_state.history ≡ plain 200 r.debug_output)
logs-row_example = logs-row millis 2 loads 2 final (λ s. s) shown reached (omega arith) is_shown

-- `path.Join` of a prefix and an endpoint, where the prefix has no more to clean.
join : String → String → String
join prefix endpoint = trim_right_slash prefix <> endpoint

joins_at : (endpoint prefix : String) → ends_with (join prefix endpoint) endpoint ≡ true
unfolding join
joins_at endpoint prefix = ends_with-append (trim_right_slash prefix) endpoint

joins : Joins join
joins = (
  joins_at "/-/reload",
  (
    joins_at "/metrics",
    (joins_at "/-/healthy", (joins_at "/probe", (joins_at "/logs", (joins_at "/config", tt)))),
  ),
)

-- What net/http/pprof registers.
abbrev mux : List String
mux =
    "/debug/pprof/" ∷ "/debug/pprof/cmdline" ∷ "/debug/pprof/profile" ∷ "/debug/pprof/symbol"
    ∷ "/debug/pprof/trace" ∷ []

abbrev flags : Flags
flags = record {
  config_check = false;
  history_limit = 2;
  external_url = "";
  route_prefix = "/x";
  web_systemd_socket = false;
  listen_addresses = ":9115" ∷ [];
}

setup-SetupOf_example :
    SetupOf url_env join mux flags
      (ok config)
      (pos 5)
      (pos 0)
      (some 0)
      (setup url_env join mux flags (ok config) (pos 5) (pos 0) (some 0))
setup-SetupOf_example =
    setup-SetupOf url_env join mux flags (ok config) (pos 5) (pos 0) (some 0) joins

exits :
    (setup url_env join mux flags (err "no such file") (pos 5) (pos 0) (some 0) ≡ exited 1)
    × (setup url_env join mux
          (record flags { config_check = true })
          (ok config)
          (pos 5)
          (pos 0)
          (some 0)
        ≡ exited 0)
    × (exit_status (setup url_env join mux flags (ok config) (pos 5) (pos 0) (some 0)) term
        ≡ some 0)
    × (setup url_env join mux
          (record flags { route_prefix = "/debug/pprof" })
          (ok config)
          (pos 5)
          (pos 0)
          (some 0)
        ≡ crashed)
unfolding setup start exit_status reload_config compute_external_url join register routes
    route_prefix trim_right_slash
exits = (refl, refl, refl, refl)

register-routes_example :
    register mux (routes join (route_prefix "" "/x"))
    ≡ unless_clash mux (routes join (route_prefix "" "/x"))
register-routes_example = register-routes join mux "" "/x" joins

-- The prefix of the flag is a pattern of net/http/pprof.
profiled : register mux (routes join (route_prefix "/debug/pprof" "/x")) ≡ none
unfolding register routes route_prefix join trim_right_slash
profiled = refl

route_prefix-IsPrefix_example :
    IsPrefix (route_prefix "//x/" "/y")
    × (route_prefix "/" "/y" ≡ "/")
    × (route_prefix "/x/" "/y" ≡ "/x/")
    × (route_prefix "/x" "/y" ≡ "/x/")
    × (route_prefix "" "/x" ≡ "/x/")
    × (route_prefix "" "/y" ≡ route_prefix "/y" "")
    × (route_prefix "" "" ≡ "/")
route_prefix-IsPrefix_example = route_prefix-IsPrefix "//x/" "/y" "x" (λ e. cc) (refl, refl)
