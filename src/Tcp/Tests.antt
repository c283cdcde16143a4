-- ===== src/Tcp/Tests.antt =====
-- A TCP probe that talks to a mail server and upgrades to TLS, and the theorems at that run.
use big_blackbox_exporter.Base.{
  ℕ, ◌+◌, ◌≤◌, ◌≡◌, refl, Bool, true, false, [], ◌∷◌, String, Option, some, none, str_eq,
  if◌then◌else◌,
}
use big_blackbox_exporter.Base.Text.{join_host_port}
use big_blackbox_exporter.Base.Int.{ℤ, pos}
use big_blackbox_exporter.Float64.Millis.{millis}
use big_blackbox_exporter.Ip.{is_v4, ip_hash}
use big_blackbox_exporter.Tls.{
  ConnectionState, get_earliest_cert_expiry, get_last_chain_expiry, get_fingerprint, get_subject,
  get_issuer, get_dns_names, get_tls_version,
}
use big_blackbox_exporter.Tls.Report.{report_connection}
use big_blackbox_exporter.Config.{TcpProbe, QueryResponse, default_tcp_probe}
use big_blackbox_exporter.Protocol.{found, lookup_error, search_ips, choose_protocol}
use big_blackbox_exporter.Metrics.{
  Registry, new_registry, Outcome, done, panic, must_register, must_register_all, ensure, or_fail,
  or_fault,
}
use big_blackbox_exporter.Tcp.Dial.{ScanLine, Incoming, TcpEnv, dial_tcp}
use big_blackbox_exporter.Tcp.Entries.{scan_until, run_entries}
use big_blackbox_exporter.Tcp.Probe.{converse, probe_tcp}
use big_blackbox_exporter.Metrics.Inversion.{Ends}
use big_blackbox_exporter.Metrics.Verdicts.{Gives}
use big_blackbox_exporter.Tcp.Total.{tcp_verdict, probe_tcp-Gives}
use big_blackbox_exporter.Tcp.Upgrade.{
  one_if, upgrades, Conversed, probe_tcp-upgrades, probe_tcp-Conversed,
}

abbrev tls_state : ConnectionState
tls_state = record {
  version = 771;
  peer_certificates =
      record {
        raw = 1 ∷ [];
        subject = "CN=mail";
        issuer = "CN=ca";
        dns_names = [];
        not_after = pos 9;
      }
      ∷ [];
  verified_chains = [];
}

abbrev line : String → ScanLine
line s = record { line = s; failed = false }

-- A connection is the number of messages that were sent.
abbrev incoming : ℕ → Incoming
incoming n = record { lines = line "hello" ∷ line "220 ready" ∷ []; failed = false }

abbrev env : TcpEnv ℤ ℕ
env = record {
  split_host_port = λ _. some ("mail", "25");
  resolver = record {
    lookup_ip = λ _ _. found [];
    lookup_ip_addr = λ _. found (record { ip = 10 ∷ 0 ∷ 0 ∷ 9 ∷ []; zone = "" } ∷ []);
  };
  lookup_time = pos 1;
  parse_ip = λ _. none;
  ip_text = λ _. "10.0.0.9";
  new_tls_config = λ c. some c;
  dial = λ dialing. if str_eq dialing.target "10.0.0.9:25" then some 0 else none;
  dial_tls = λ _ _. none;
  set_deadline = λ _. true;
  incoming = incoming;
  consume = λ _ conn. conn;
  send = λ message conn. if str_eq message "STARTTLS\n" then some (conn + 1) else none;
  handshake =
      λ config conn. if str_eq config.server_name "mail" then some (conn, tls_state) else none;
  find = λ re s. if str_eq re s then some [] else none;
  expand = λ re template s m. template;
  unix = λ t. t;
  fingerprint = λ _. "ab";
}

abbrev entry : Option String → String → Bool → QueryResponse
entry re send start_tls = record {
  expect = record { regexp = re; original = "" };
  send = send;
  start_tls = start_tls;
}

abbrev config : TcpProbe
config = record default_tcp_probe {
  query_response = entry (some "220 ready") "STARTTLS" false ∷ entry none "" true ∷ [];
}

run : TcpProbe → Outcome ℤ Bool
unfolding probe_tcp dial_tcp converse run_entries scan_until report_connection choose_protocol
    must_register must_register_all ensure or_fail or_fault is_v4 ip_hash join_host_port
    get_earliest_cert_expiry get_last_chain_expiry get_fingerprint get_subject get_issuer
    get_dns_names get_tls_version
run c = probe_tcp millis env c "mail:25" new_registry

registry_of : Outcome ℤ Bool → Registry ℤ
registry_of panic = new_registry
registry_of (done b reg) = reg

run_succeeds : run config ≡ done true (registry_of (run config))
unfolding run registry_of
run_succeeds = refl

-- A second upgrade is a panic.
second_upgrade :
    run (record config { query_response = entry none "" true ∷ entry none "" true ∷ [] }) ≡ panic
unfolding run
second_upgrade = refl

probe_tcp-upgrades_example : one_if config.tls + upgrades config.query_response ≤ 1
unfolding run
probe_tcp-upgrades_example =
    probe_tcp-upgrades millis env config "mail:25" new_registry (registry_of (run config))
      run_succeeds

probe_tcp-Conversed_example : Conversed millis env config "mail:25"
unfolding run
probe_tcp-Conversed_example =
    probe_tcp-Conversed millis env config "mail:25" new_registry (registry_of (run config))
      run_succeeds

-- The same server, of which the probe expects the greeting only.
abbrev quiet_env : TcpEnv ℤ ℕ
quiet_env = record env {
  resolver = record {
    lookup_ip = λ _ _. lookup_error "no such host";
    lookup_ip_addr = λ _. found (record { ip = 10 ∷ 0 ∷ 0 ∷ 9 ∷ []; zone = "" } ∷ []);
  };
}

abbrev greeting : TcpProbe
greeting = record default_tcp_probe {
  query_response = entry (some "220 ready") "STARTTLS" false ∷ [];
}

abbrev given_registry : Registry ℤ
given_registry = record {
  samples = [];
  registered = "probe_duration_seconds" ∷ "probe_success" ∷ [];
}

greeted : tcp_verdict millis quiet_env greeting "mail:25" ≡ true
unfolding search_ips is_v4 join_host_port scan_until
greeted = refl

probe_tcp-Gives_example :
    Ends
      (Gives (tcp_verdict millis quiet_env greeting "mail:25"))
      (probe_tcp millis quiet_env greeting "mail:25" given_registry)
probe_tcp-Gives_example =
    probe_tcp-Gives millis quiet_env greeting "mail:25" given_registry (λ network host e. cc) refl
      (refl, tt) refl
