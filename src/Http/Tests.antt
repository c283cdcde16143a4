-- ===== src/Http/Tests.antt =====
-- The matchers and the traces of an HTTP probe at concrete values, and the theorems there.
use big_blackbox_exporter.Base.{
  ◌+◌, ◌≡◌, ◌↔◌, refl, Bool, true, false, List, [], ◌∷◌, String, some, none, str_eq, All,
}
use big_blackbox_exporter.Base.Int.{pos}
use big_blackbox_exporter.Config.{Regexp, HttpClientConfig, HttpProbe, default_http_probe}
use big_blackbox_exporter.Http.Matchers.{
  Header, match_regular_expressions, match_regular_expressions_on_headers,
}
use big_blackbox_exporter.Http.Matchers.Rules.{
  IsMatchingBody, IsForbidding, IsRequiring, match_regular_expressions_iff,
  match_regular_expressions_on_headers_iff,
}
use big_blackbox_exporter.Http.Transport.{
  Transport, new_transport, dns_start, dns_done, connect_start, connect_done, got_conn,
  got_first_response_byte,
}
use big_blackbox_exporter.Http.Transport.Order.{
  Step, request, event, run, requests, IsTraced, run-IsTraced,
}

-- An expression matches the text that it is.
abbrev literal : Regexp → String → Bool
literal re text = str_eq re.original text

abbrev re : String → Regexp
re source = record { regexp = some source; original = source }

abbrev client : HttpClientConfig
client = record {
  tls_config = record { server_name = "" };
  follow_redirects = true;
  proxy_url = none;
  proxy_from_environment = false;
}

abbrev http : HttpProbe
http = record (default_http_probe client) {
  fail_if_body_not_matches_regexp = re "ok" ∷ [];
  fail_if_header_matches_regexp =
      record { header = "server"; regexp = re "old"; allow_missing = true } ∷ [];
}

match_regular_expressions_iff_example :
    (match_regular_expressions literal (some "ok") http ≡ true)
    ↔ IsMatchingBody literal http (some "ok")
match_regular_expressions_iff_example = match_regular_expressions_iff literal http (some "ok")

abbrev header : Header
header = ("Server", "new" ∷ "old" ∷ []) ∷ []

match_regular_expressions_on_headers_iff_example :
    (match_regular_expressions_on_headers literal header http ≡ true) ↔ (
      All (IsForbidding literal header) http.fail_if_header_matches_regexp
      × All (IsRequiring literal header) http.fail_if_header_not_matches_regexp)
match_regular_expressions_on_headers_iff_example =
    match_regular_expressions_on_headers_iff literal header http

-- A connection to an address, and a redirect to a name.
abbrev steps : List Step
steps =
    event connect_start (pos 5)
    ∷ event connect_done (pos 7)
    ∷ event got_conn (pos 7)
    ∷ event got_first_response_byte (pos 9)
    ∷ request "https" "example.org"
    ∷ event dns_start (pos 10)
    ∷ event dns_done (pos 12)
    ∷ event connect_start (pos 12)
    ∷ event got_conn (pos 15)
    ∷ []

run-IsTraced_example :
    (t : Transport) × (run (request "http" "10.0.0.1" ∷ steps) new_transport ≡ some t)
    × IsTraced "10.0.0.1" (1 + requests steps) t
run-IsTraced_example = run-IsTraced "http" "10.0.0.1" steps refl (
  refl,
  refl,
  (
    refl,
    refl,
    (refl, refl, (refl, refl, (refl, refl, (refl, refl, (refl, refl, (refl, refl, tt)))))),
  ),
)
