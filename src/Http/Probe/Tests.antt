-- ===== src/Http/Probe/Tests.antt =====
-- An HTTP probe of one server, and the theorems at that run.
use big_blackbox_exporter.Base.{
  ℕ, ◌≡◌, refl, Bool, true, false, [], ◌∷◌, some, none, str_eq, if◌then◌else◌,
}
use Prim.Native.String.{◌++◌ as ◌<>◌}
use big_blackbox_exporter.Base.Int.{ℤ, pos}
use big_blackbox_exporter.Base.Text.{canonical_mime_header_key, join_host_port, trim_prefix}
use big_blackbox_exporter.Base.Dict.{lookup, insert}
use big_blackbox_exporter.Float64.Millis.{millis}
use big_blackbox_exporter.Ip.{is_v4, ip_hash}
use big_blackbox_exporter.Metrics.{
  Registry, new_registry, Outcome, done, panic, value_of, must_register, must_register_all, ensure,
  or_fail, or_fault,
}
use big_blackbox_exporter.Protocol.{found, choose_protocol}
use big_blackbox_exporter.Config.{HttpClientConfig, HttpProbe, default_http_probe}
use big_blackbox_exporter.Http.Matchers.{
  match_regular_expressions, match_regular_expressions_on_headers,
}
use big_blackbox_exporter.Http.Transport.{
  connect_start, got_conn, got_first_response_byte, report_traces,
}
use big_blackbox_exporter.Http.Transport.Order.{request, event, run}
use big_blackbox_exporter.Http.Response.{
  HttpResponse, ResponseEnv, is_valid_status, is_valid_version, header_get, decompress, limit_body,
  match_headers, match_body, finish_response, check_response, check_tls,
}
use big_blackbox_exporter.Http.Probe.{
  Url, HttpRequest, Exchange, HttpEnv, client_config, check_redirect, url_host, request_body,
  make_request, conclude, after_exchange, send, resolve, probe_http,
}
use big_blackbox_exporter.Http.Probe.Soundness.{IsProbed, probe_http-IsProbed}

abbrev response_env : ResponseEnv ℤ
response_env = record {
  matches = λ re text. str_eq re.original text;
  to_lower = λ s. s;
  brotli = λ b. b;
  flate = λ b. b;
  gzip = λ b. some b;
  gzip_rest = λ b. b;
  max_bytes = λ _ b. b;
  parse_time = λ _. none;
  unix = λ t. t;
  fingerprint = λ _. "00";
}

abbrev client : HttpClientConfig
client = record {
  tls_config = record { server_name = "" };
  follow_redirects = true;
  proxy_url = none;
  proxy_from_environment = false;
}

abbrev config : HttpProbe
config = record (default_http_probe client) {
  compression = "gzip";
  fail_if_body_not_matches_regexp = record { regexp = some "ok"; original = "ok" } ∷ [];
}

abbrev response : HttpResponse
response = record {
  status_code = pos 204;
  proto = "HTTP/1.1";
  header = [];
  content_length = pos 2;
  body = record { content = "ok"; size = 2; failed = false };
  tls = none;
}

abbrev url : Url
url = record { text = "http://server:80"; hostname = "server"; port = "80"; host = "server:80" }

abbrev answer : HttpRequest → Exchange
answer r = record {
  response = if str_eq r.url "http://10.0.0.9:80" then some response else none;
  errored = false;
  redirects = 0;
  steps =
      request "http" "10.0.0.9:80"
      ∷ event connect_start (pos 5)
      ∷ event got_conn (pos 7)
      ∷ event got_first_response_byte (pos 9)
      ∷ [];
}

abbrev env : HttpEnv ℤ
env = record {
  on_response = response_env;
  parse_url = λ text. if str_eq text "http://server:80" then some url else none;
  with_host = λ _ host. "http://" <> host;
  resolver = record {
    lookup_ip = λ _ _. found [];
    lookup_ip_addr = λ _. found (record { ip = 10 ∷ 0 ∷ 0 ∷ 9 ∷ []; zone = "" } ∷ []);
  };
  lookup_time = pos 1;
  ip_text = λ _. "10.0.0.9";
  can_make_client = λ _. true;
  can_make_round_tripper = λ _. true;
  can_make_jar = true;
  open_file = λ _. none;
  can_make_request = λ _ _. true;
  user_agent = "Blackbox Exporter/";
  exchange = λ _ _ _ r. answer r;
  now = pos 20;
  elapsed = λ to from. to;
}

outcome : Outcome ℤ Bool
unfolding probe_http resolve send after_exchange conclude run client_config check_redirect url_host
    request_body make_request check_response match_headers match_body finish_response check_tls
    report_traces decompress limit_body is_valid_status is_valid_version header_get
    match_regular_expressions match_regular_expressions_on_headers choose_protocol is_v4 ip_hash
    must_register must_register_all ensure or_fail or_fault canonical_mime_header_key join_host_port
    trim_prefix lookup insert
outcome = probe_http millis env config "server:80" new_registry

registry_of : Outcome ℤ Bool → Registry ℤ
registry_of panic = new_registry
registry_of (done b reg) = reg

outcome_succeeds : outcome ≡ done true (registry_of outcome)
unfolding outcome registry_of
outcome_succeeds = refl

outcome_processing :
    value_of "probe_http_duration_seconds" ("processing" ∷ []) (registry_of outcome) ≡ some (pos 9)
unfolding outcome registry_of
outcome_processing = refl

probe_http-IsProbed_example : IsProbed millis env config "server:80"
unfolding outcome
probe_http-IsProbed_example =
    probe_http-IsProbed millis env config "server:80" new_registry (registry_of outcome)
      outcome_succeeds

checked : Outcome ℤ (Bool × ℕ)
unfolding outcome
checked = check_response millis response_env config response false new_registry

checked_registry : Outcome ℤ (Bool × ℕ) → Registry ℤ
checked_registry panic = new_registry
checked_registry (done _ reg) = reg
