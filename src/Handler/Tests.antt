-- ===== src/Handler/Tests.antt =====
-- Requests to a server with one DNS module, and the theorems there.
use big_blackbox_exporter.Base.{
  ◌≡◌, refl, true, false, List, [], ◌∷◌, String, some, none, str_eq, ◌==◌, if◌then◌else◌,
}
use big_blackbox_exporter.Base.Int.{ℤ, pos}
use big_blackbox_exporter.Base.Text.{canonical_mime_header_key}
use big_blackbox_exporter.Base.Dict.{lookup}
use big_blackbox_exporter.Float64.Millis.{millis}
use big_blackbox_exporter.Config.{HttpClientConfig, Module, default_module}
use big_blackbox_exporter.History.{new_history}
use big_blackbox_exporter.Metrics.{return}
use big_blackbox_exporter.Handler.{Values, get, Request, State, http_error, served, Server, handler}
use big_blackbox_exporter.Handler.Host.{
  Headers, set_http_host, copy_headers, HostResult, set_http_host-HostResult,
}
use big_blackbox_exporter.Handler.Logging.{
  Keyvals, LogEnv, ScrapeLogger, new_scrape_logger, log, log_all, info, error, probe_log,
}
use Prim.Native.String.{◌++◌ as ◌<>◌}

abbrev headers : Headers
headers = ("host", "example.com") ∷ ("Accept", "text/plain") ∷ []

host_conflict : set_http_host "example.org" headers ≡ none
unfolding set_http_host copy_headers canonical_mime_header_key
host_conflict = refl

set_http_host-HostResult_example :
    HostResult "example.com" headers (set_http_host "example.com" headers)
unfolding lookup
set_http_host-HostResult_example = set_http_host-HostResult "example.com" headers (refl, (refl, tt))

abbrev client : HttpClientConfig
client = record {
  tls_config = record { server_name = "" };
  follow_redirects = true;
  proxy_url = none;
  proxy_from_environment = false;
}

abbrev dns_module : Module
dns_module = record (default_module client) { prober = "dns"; timeout = pos 4000 }

-- Every probe succeeds and leaves the registry as it is.
abbrev server : Server ℤ
server = record {
  config = record { modules = ("dns", dns_module) ∷ [] };
  timeout_offset = pos 500;
  run = λ _ _ _ _ _. return true;
  messages = λ _ _ _ _ _. (("level", "info") ∷ ("msg", "probe") ∷ []) ∷ [];
  log_env = record { logfmt = λ _ _. "line"; allows = λ _. false };
  number_text = λ _. "1";
  gather = λ _. ("probe_success 1", none);
  marshal = λ _. ("prober: dns", none);
  duration = pos 3;
}

abbrev request : Request
request = record {
  query = ("module", "dns" ∷ []) ∷ ("target", "server" ∷ []) ∷ ("debug", "true" ∷ []) ∷ [];
  scrape_timeout = "10";
}

abbrev state : State
state = record { history = new_history 2; module_unknown = some 0 }

abbrev unknown_module : Values
unknown_module = ("module", "icmp" ∷ []) ∷ []

unknown_module_counts :
    handler millis server request (some unknown_module) state
    ≡ served (http_error "Unknown module" 400) (record state { module_unknown = some 1 })
unfolding handler get lookup
unknown_module_counts = refl

-- The line is its number and the last of the values; the filter is that of the level "error".
abbrev last_value : Keyvals → String
last_value [] = ""
last_value ((key, value) ∷ []) = value <> "\n"
last_value (_ ∷ more) = last_value more

abbrev level_of : Keyvals → String
level_of [] = ""
level_of ((key, value) ∷ _) = value

abbrev log_env : LogEnv
log_env = record {
  logfmt = λ n keyvals. if n == 0 then "first " <> last_value keyvals else last_value keyvals;
  allows = λ keyvals. str_eq (level_of keyvals) "error";
}

abbrev messages : List Keyvals
messages = info "Resolved" (("ip", "10.0.0.9") ∷ []) ∷ error "No answer" [] ∷ []

logged : ScrapeLogger
logged = probe_log log_env "dns" "server" "dns" "4" messages false "3"

logs_all : logged.buffer ≡ "first 4\n10.0.0.9\nNo answer\n3\n"
unfolding logged probe_log log log_all new_scrape_logger
logs_all = refl
