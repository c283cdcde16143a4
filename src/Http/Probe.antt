-- ===== src/Http/Probe.antt =====
-- prober/http.go: `ProbeHTTP`.
--
-- What the probe calls outside the repository is the record `HttpEnv`: net/url, the files, the
-- HTTP client of prometheus/common and the clock. `none` is an error. A call of the client gives
-- the response, if there is one, whether it comes with an error, the number of redirects at the
-- last call of `CheckRedirect`, and the steps of the transport that it has made. A map's order is
-- that of the list. The deadline and logging are left out.
pub mod Soundness
mod Tests
use Prim.Native.String.{◌++◌ as ◌<>◌}
use text.Mathlib.Text.{starts_with}
use big_blackbox_exporter.Base.{
  ℕ, Bool, true, false, not, ◌&&◌, ◌||◌, List, [], ◌∷◌, String, Option, some, none, str_eq, ltb,
  if◌then◌else◌,
}
use big_blackbox_exporter.Base.Text.{
  with_scheme, canonical_mime_header_key, join_host_port, occurs_code,
}
use big_blackbox_exporter.Base.Int.{pos}
use big_blackbox_exporter.Base.Dict.{lookup, insert}
use big_blackbox_exporter.Float64.{Float64}
use big_blackbox_exporter.Metrics.{
  Probe, ◌>>=◌, ◌>>◌, return, must_register, set_gauge, add_gauge, with_labels, ensure, or_fail,
  or_fault, is_nil,
}
use big_blackbox_exporter.Ip.{IpAddr}
use big_blackbox_exporter.Protocol.{Resolver, Chosen, choose_protocol}
use big_blackbox_exporter.Config.{HttpClientConfig, HttpProbe}
use big_blackbox_exporter.Tls.{Time}
use big_blackbox_exporter.Http.Matchers.{Header}
use big_blackbox_exporter.Http.Transport.{
  Trace, Transport, new_transport, traces, map_trace, with_current, report_traces,
}
use big_blackbox_exporter.Http.Transport.Order.{Step, run}
use big_blackbox_exporter.Http.Response.{
  HttpResponse, no_response, ResponseEnv, check_response, check_tls,
}

-- The parts of a URL that are read; `host` has the port, if there is one.
pub record Url : Type 0 where
  pub text : String
  pub hostname : String
  pub port : String
  pub host : String

pub record HttpRequest : Type 0 where
  pub method : String
  pub url : String
  pub body : Option String
  pub host : String
  pub header : Header

pub record Exchange : Type 0 where
  pub response : Option HttpResponse
  pub errored : Bool
  pub redirects : ℕ
  pub steps : List Step

pub record HttpEnv (V : Type 0) : Type 0 where
  pub on_response : ResponseEnv V
  pub parse_url : String → Option Url
  -- the URL's text with its host replaced
  pub with_host : Url → String → String
  pub resolver : Resolver
  pub lookup_time : V
  pub ip_text : IpAddr → String
  -- `NewClientFromConfig`, `NewRoundTripperFromConfig` and `cookiejar.New`, without an error
  pub can_make_client : HttpClientConfig → Bool
  pub can_make_round_tripper : HttpClientConfig → Bool
  pub can_make_jar : Bool
  pub open_file : String → Option String
  -- `http.NewRequest` of a method and a URL, without an error
  pub can_make_request : String → String → Bool
  pub user_agent : String
  -- `client.Do`, with the client's configuration, that without a server name, and `CheckRedirect`
  pub exchange : HttpClientConfig → HttpClientConfig → (ℕ → Bool) → HttpRequest → Exchange
  pub now : Time
  -- `to.Sub(from).Seconds()`
  pub elapsed : Time → Time → V

abbrev pub resolves : HttpProbe → Bool
resolves http =
    not http.skip_resolve_phase_with_proxy
    || is_nil http.http_client_config.proxy_url
    || http.http_client_config.proxy_from_environment

-- The value of the last host header, or else the name that is given.
unfoldable pub host_or : String → List (String × String) → String
host_or name [] = name
host_or name ((key, value) ∷ headers) =
    host_or (if str_eq (canonical_mime_header_key key) "Host" then value else name) headers

abbrev pub with_server_name : HttpClientConfig → String → HttpClientConfig
with_server_name client name = record client { tls_config = record { server_name = name } }

unfoldable pub client_config : HttpProbe → String → HttpClientConfig
unfolding host_or
client_config http host =
    if str_eq http.http_client_config.tls_config.server_name ""
    then with_server_name http.http_client_config (host_or host http.headers)
    else http.http_client_config

-- `CheckRedirect`: whether it returns an error, by the number of requests made.
unfoldable pub check_redirect : HttpProbe → ℕ → Bool
check_redirect http via = ltb 10 via || not http.http_client_config.follow_redirects

-- The host of the URL, replaced by the address.
unfoldable pub url_host : (ip_text : IpAddr → String) → Url → Option IpAddr → String
unfolding join_host_port
url_host ip_text url none = url.host
url_host ip_text url (some ip) =
    if str_eq url.port ""
    then (if occurs_code b':' (ip_text ip) then "[" <> ip_text ip <> "]" else ip_text ip)
    else join_host_port (ip_text ip) url.port

abbrev pub opened : Option String → Option (Option String)
opened none = none
opened (some content) = some (some content)

-- The request's body; the outer none is a file that cannot be opened.
unfoldable pub request_body :
    (open_file : String → Option String) → HttpProbe → Option (Option String)
request_body open_file http =
    if not (str_eq http.body_file "")
    then opened (open_file http.body_file)
    else some (if not (str_eq http.body "") then some http.body else none)

-- The loop that sets the headers of the request and its host.
unfoldable pub set_headers : String × Header → List (String × String) → String × Header
unfolding insert
set_headers hh [] = hh
set_headers (host, header) ((key, value) ∷ headers) =
    set_headers
      (if str_eq (canonical_mime_header_key key) "Host"
        then (value, header)
        else (host, insert (canonical_mime_header_key key) (value ∷ []) header))
      headers

abbrev pub with_user_agent : String → Header → Header
with_user_agent agent header =
    if is_nil (lookup "User-Agent" header) then insert "User-Agent" (agent ∷ []) header else header

unfoldable pub make_request : (agent url : String) → Url → HttpProbe → Option String → HttpRequest
unfolding set_headers lookup insert
make_request agent text url http body =
    let hh = set_headers (url.host, []) http.headers in
    record {
      method = if str_eq http.method "" then "GET" else http.method;
      url = text;
      body = body;
      host = hh.0;
      header = with_user_agent agent hh.1;
    }

-- `tt.current.end = time.Now()`
abbrev pub end_trace : Time → Transport → Option Transport
end_trace now t = with_current t (map_trace (λ trace. record trace { end_time = now }) t.current)

abbrev pub or_default : String → String → String
or_default default s = if str_eq s "" then default else s

module _ (fl : Float64) (env : HttpEnv (fl.Num)) where
  open fl use {Num, of_int, add}

  -- The end of the probe: durations, certificates and the remaining gauges.
  unfoldable pub conclude :
      HttpProbe
      → Exchange
      → HttpResponse
      → Transport
      → (success : Bool) → (bytes : ℕ) → Probe Num Bool
  conclude http ex resp t success bytes = do
    report_traces fl env.elapsed 0 (traces t)
    success' ← check_tls fl env.on_response http resp.tls success
    set_gauge "probe_http_status_code" [] (of_int resp.status_code)
    set_gauge "probe_http_content_length" [] (of_int resp.content_length)
    set_gauge "probe_http_uncompressed_body_length" [] (of_int (pos bytes))
    set_gauge "probe_http_redirects" [] (of_int (pos ex.redirects))
    return success'

  abbrev pub on_response : HttpProbe → Exchange → Transport → Option HttpResponse → Probe Num Bool
  on_response http ex t none = conclude http ex no_response t false 0
  on_response http ex t (some resp) = do
    checked ← check_response fl env.on_response http resp ex.errored
    or_fault (end_trace env.now t) λ t'. conclude http ex resp t' checked.0 checked.1

  -- What follows `client.Do`.
  unfoldable pub after_exchange : HttpProbe → Exchange → Probe Num Bool
  after_exchange http ex =
      or_fault (run ex.steps new_transport) λ t. on_response http ex t ex.response

  abbrev pub init_phases : Probe Num (Unit {0})
  init_phases = do
    with_labels (of_int (pos 0)) "probe_http_duration_seconds" ("connect" ∷ [])
    with_labels (of_int (pos 0)) "probe_http_duration_seconds" ("tls" ∷ [])
    with_labels (of_int (pos 0)) "probe_http_duration_seconds" ("processing" ∷ [])
    with_labels (of_int (pos 0)) "probe_http_duration_seconds" ("transfer" ∷ [])

  -- From the resolved address to the response.
  unfoldable pub send : HttpProbe → Url → Option IpAddr → Probe Num Bool
  send http url ip =
      let client = client_config http url.hostname in
      let no_server_name = with_server_name client "" in
      let text = env.with_host url (url_host env.ip_text url ip) in
      ensure (env.can_make_client client) (
        ensure (env.can_make_round_tripper no_server_name) (
          ensure env.can_make_jar (
            or_fail (request_body env.open_file http) λ body.
              ensure (env.can_make_request (or_default "GET" http.method) text) (
                init_phases
                >> after_exchange http (
                    env.exchange client no_server_name (check_redirect http)
                      (make_request env.user_agent text url http body))))))

  -- The address of the target; the outer none is an error.
  abbrev pub resolved : Chosen Num → Option (Option IpAddr)
  resolved c = if is_nil c.err then some c.ip else none

  unfoldable pub resolve : HttpProbe → Url → Probe Num (Option (Option IpAddr))
  resolve http url =
      if resolves http
      then (choose_protocol fl env.resolver env.lookup_time http.ip_protocol
            http.ip_protocol_fallback url.hostname
          >>= λ c.
              add_gauge add (of_int (pos 0)) "probe_http_duration_seconds" ("resolve" ∷ [])
                c.lookup_time
              >> return (resolved c))
      else return (some none)

  unfoldable pub probe_http : HttpProbe → (target : String) → Probe Num Bool
  probe_http http target = do
    must_register "probe_http_duration_seconds"
    must_register "probe_http_content_length"
    must_register "probe_http_uncompressed_body_length"
    must_register "probe_http_redirects"
    must_register "probe_http_ssl"
    must_register "probe_http_status_code"
    must_register "probe_http_version"
    must_register "probe_failed_due_to_regex"
    or_fail (env.parse_url (with_scheme target))
        λ url. do address ← resolve http url; or_fail address λ ip. send http url ip
