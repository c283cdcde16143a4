-- ===== src/Grpc/Tests.antt =====
-- A gRPC probe of one service, and the theorem at that run.
use big_blackbox_exporter.Base.{
  ℕ, ◌≡◌, refl, Bool, true, false, [], ◌∷◌, String, some, none, str_eq, ◌==◌, if◌then◌else◌,
}
use big_blackbox_exporter.Base.Int.{ℤ, pos}
use big_blackbox_exporter.Float64.Millis.{millis}
use big_blackbox_exporter.Ip.{is_v4, ip_hash}
use big_blackbox_exporter.Config.{default_grpc_probe}
use big_blackbox_exporter.Protocol.{found, choose_protocol}
use big_blackbox_exporter.Metrics.{
  Registry, new_registry, Outcome, done, panic, value_of, must_register, ensure, or_fail, or_fault,
}
use big_blackbox_exporter.Grpc.{
  GrpcEnv, health, rpc_error, check, host_port, dial_target, clear_statuses, report_check,
  probe_grpc,
}
use big_blackbox_exporter.Base.Text.{with_scheme}
use big_blackbox_exporter.Grpc.Soundness.{Served, probe_grpc-Served}

abbrev status_name : ℕ → String
status_name status = if status == 1 then "SERVING" else "UNKNOWN"

abbrev env : GrpcEnv ℤ String
env = record {
  url_host = λ _. some "host";
  split_host_port = λ _. none;
  new_tls_config = λ c. some c;
  resolver = record {
    lookup_ip = λ _ _. found [];
    lookup_ip_addr = λ _. found (record { ip = 10 ∷ 0 ∷ 0 ∷ 9 ∷ []; zone = "" } ∷ []);
  };
  lookup_time = pos 1;
  dial = λ target credentials. some target;
  check = λ conn service. if str_eq conn "host:80" then health 1 none else rpc_error 14;
  serving = 1;
  status_name = status_name;
  status_names = "UNKNOWN" ∷ "SERVING" ∷ [];
  check_seconds = pos 2;
  unix = λ t. t;
  fingerprint = λ _. "ab";
}

-- No status has the empty name.
named : (status : ℕ) → str_eq (status_name status) "" ≡ false
named status = go (status == 1)
  where
    go : (b : Bool) → str_eq (if b then "SERVING" else "UNKNOWN") "" ≡ false
    go true = refl
    go false = refl

run : Outcome ℤ Bool
unfolding probe_grpc report_check clear_statuses check dial_target choose_protocol must_register
    ensure or_fail or_fault is_v4 ip_hash
run = probe_grpc millis env default_grpc_probe "host" new_registry

registry_of : Outcome ℤ Bool → Registry ℤ
registry_of panic = new_registry
registry_of (done b reg) = reg

run_succeeds : run ≡ done true (registry_of run)
unfolding run registry_of
run_succeeds = refl

run_statuses :
    (value_of "probe_grpc_healthcheck_response" ("SERVING" ∷ []) (registry_of run) ≡ some (pos 1))
    × (value_of "probe_grpc_healthcheck_response" ("UNKNOWN" ∷ []) (registry_of run) ≡ some (pos 0))
unfolding run registry_of
run_statuses = (refl, refl)

probe_grpc-Served_example :
    (url_host : String) × (env.url_host (with_scheme "host") ≡ some url_host)
    × Served millis env default_grpc_probe
        (host_port url_host (env.split_host_port url_host))
        (registry_of run)
unfolding run
probe_grpc-Served_example =
    probe_grpc-Served millis env named default_grpc_probe "host" new_registry (registry_of run)
      run_succeeds
