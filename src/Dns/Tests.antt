-- ===== src/Dns/Tests.antt =====
-- A DNS probe against one server, and the theorems at that run.
use big_blackbox_exporter.Base.{
  ◌≡◌, refl, Bool, true, false, [], ◌∷◌, String, Option, some, none, str_eq, if◌then◌else◌,
}
use big_blackbox_exporter.Base.Text.{join_host_port}
use big_blackbox_exporter.Base.Int.{ℤ, pos}
use big_blackbox_exporter.Float64.Millis.{millis}
use big_blackbox_exporter.Ip.{is_v4, ip_hash}
use big_blackbox_exporter.Config.{DnsProbe, DnsRrValidator, default_dns_probe, empty_validator}
use big_blackbox_exporter.Protocol.{found, lookup_error, search_ips, choose_protocol}
use big_blackbox_exporter.Metrics.{
  Registry, new_registry, Outcome, done, panic, value_of, must_register, ensure, or_fail, or_fault,
}
use big_blackbox_exporter.Dns.{Rr, valid_rrs, valid_rcode}
use big_blackbox_exporter.Dns.Rules.{rules, valid_rrs-eq-rules}
use big_blackbox_exporter.Dns.Probe.{
  DnsResponse, DnsEnv, probe_dns, send, check_response, report_soa, set_serials,
}
use big_blackbox_exporter.Metrics.Inversion.{Ends}
use big_blackbox_exporter.Metrics.Verdicts.{Gives}
use big_blackbox_exporter.Dns.Probe.Total.{dns_verdict, probe_dns-Gives}
use big_blackbox_exporter.Dns.Probe.Soundness.{Answered, probe_dns-Answered}

-- An expression matches the text that it is; "(" does not compile.
abbrev literal : String → String → Option Bool
literal re text = if str_eq re "(" then none else some (str_eq re text)

abbrev rr : String → Rr
rr text = record { text = text; serial = some 3 }

abbrev validator : DnsRrValidator
validator = record empty_validator { fail_if_not_matches_regexp = "A 10.0.0.1" ∷ [] }

valid_rrs_tests :
    (valid_rrs literal [] validator ≡ false)
    × (valid_rrs literal (rr "A 10.0.0.1" ∷ []) validator ≡ true)
    × (valid_rrs literal (rr "A 10.0.0.2" ∷ []) validator ≡ false)
    × (valid_rrs literal
          (rr "x" ∷ [])
          (record empty_validator { fail_if_all_match_regexp = "y" ∷ [] })
        ≡ false)
unfolding valid_rrs
valid_rrs_tests = (refl, refl, refl, refl)

valid_rrs-eq-rules_example :
    valid_rrs literal (rr "A 10.0.0.1" ∷ []) validator
    ≡ rules literal validator (rr "A 10.0.0.1" ∷ [])
valid_rrs-eq-rules_example = valid_rrs-eq-rules literal validator (rr "A 10.0.0.1" ∷ [])

abbrev response : DnsResponse
response = record { rcode = 0; answer = rr "A 10.0.0.1" ∷ []; ns = []; extra = [] }

abbrev env : DnsEnv ℤ
env = record {
  string_to_class = λ _. none;
  string_to_type = λ name. if str_eq name "SOA" then some 6 else none;
  string_to_rcode = λ name. if str_eq name "NOERROR" then some 0 else none;
  fqdn = λ name. name;
  matches = literal;
  split_host_port = λ _. none;
  parse_ip = λ _. none;
  ip_text = λ _. "10.0.0.9";
  new_tls_config = λ c. some c;
  resolver = record {
    lookup_ip = λ _ _. lookup_error "no such host";
    lookup_ip_addr = λ _. found (record { ip = 10 ∷ 0 ∷ 0 ∷ 9 ∷ []; zone = "" } ∷ []);
  };
  lookup_time = pos 1;
  exchange = λ _ _ server. if str_eq server "10.0.0.9:53" then some response else none;
  connect_seconds = pos 2;
  rtt_seconds = pos 3;
}

abbrev config : DnsProbe
config = record default_dns_probe {
  query_name = "example.com.";
  query_type = "SOA";
  validate_answer = validator;
}

run : Outcome ℤ Bool
unfolding probe_dns send check_response report_soa set_serials choose_protocol must_register ensure
    or_fail or_fault valid_rcode valid_rrs join_host_port is_v4 ip_hash
run = probe_dns millis env config "server" new_registry

registry_of : Outcome ℤ Bool → Registry ℤ
registry_of panic = new_registry
registry_of (done b reg) = reg

run_succeeds : run ≡ done true (registry_of run)
unfolding run registry_of
run_succeeds = refl

run_serial : value_of "probe_dns_serial" [] (registry_of run) ≡ some (pos 3)
unfolding run registry_of
run_serial = refl

probe_dns-Answered_example : Answered millis env config "server" (registry_of run)
unfolding run
probe_dns-Answered_example =
    probe_dns-Answered millis env config "server" new_registry (registry_of run) run_succeeds

-- The registry that the handler gives a probe.
abbrev start : Registry ℤ
start = record { registered = "probe_duration_seconds" ∷ "probe_success" ∷ []; samples = [] }

probe_dns-Gives_example :
    Ends
      (Gives (dns_verdict millis env config "server"))
      (probe_dns millis env config "server" start)
probe_dns-Gives_example =
    probe_dns-Gives millis env config "server" start (λ network host e. cc) refl

verdicts :
    (dns_verdict millis env config "server" ≡ true)
    × (dns_verdict millis env (record config { transport_protocol = "sctp" }) "server" ≡ false)
unfolding valid_rcode valid_rrs join_host_port is_v4 search_ips
verdicts = (refl, refl)
