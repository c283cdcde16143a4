-- ===== src/Probers/Answered.antt =====
-- Requests of /probe that are always answered.
use mathlib.Core.Path.{subst}
use big_blackbox_exporter.Base.{
  ℕ, ◌≡◌, ◌≤◌, ◌≢◌, refl, ap, sym, ◌∙◌, Bool, true, false, not, ◌&&◌, List, String, Option, some,
  none, All, str_eq, if◌then◌else◌, Bool-cases, inl, inr,
}
use big_blackbox_exporter.Base.Int.{pos}
use big_blackbox_exporter.Base.Dict.{lookup}
use big_blackbox_exporter.Float64.{Float64}
use big_blackbox_exporter.Config.{Module, IcmpProbe, QueryResponse}
use big_blackbox_exporter.Metrics.{Registry, Outcome, panic}
use big_blackbox_exporter.Metrics.Inversion.{Ends}
use big_blackbox_exporter.Protocol.Total.{Answers}
use big_blackbox_exporter.Dns.Probe.Total.{probe_dns-Gives}
use big_blackbox_exporter.Icmp.Probe.Total.{HasHeader, probe_icmp-Gives}
use big_blackbox_exporter.Tcp.Total.{probe_tcp-Gives}
use big_blackbox_exporter.Handler.{
  ProbeFn, probe_dns, probe_icmp, probe_tcp, probers, Values, get, Request, State, Server, panicked,
  params_or_query, or_http_2xx, apply_http_hostname, apply_tcp_hostname, with_headers, handler,
}
use big_blackbox_exporter.Handler.Host.{set_http_host}
use big_blackbox_exporter.Handler.Requests.{Serves, Crashed}
use big_blackbox_exporter.Handler.Gauges.{registry}
use big_blackbox_exporter.Probers.{Outside, run_probe, with_probers}
use big_blackbox_exporter.Probers.Requests.{probe-Serves}

-- The module has a probe that does not panic: DNS, ICMP with a payload of a size for which `make`
-- does not panic, or TCP without TLS.
pub data IsTotal (max_alloc : ℕ) (m : Module) : Type 0 where
  by_dns : m.prober ≡ "dns" → IsTotal max_alloc m
  by_icmp :
      (size : ℕ)
      → m.prober ≡ "icmp"
      → m.icmp.payload_size ≡ pos size
      → size ≤ max_alloc
      → IsTotal max_alloc m
  by_plain_tcp :
      m.prober ≡ "tcp"
      → m.tcp.tls ≡ false
      → All (λ qr. qr.start_tls ≡ false) m.tcp.query_response
      → IsTotal max_alloc m

-- What `IsTotal` reads of the module's ICMP and TCP probes.
abbrev kept : Module → IcmpProbe × (Bool × List QueryResponse)
kept m = (m.icmp, (m.tcp.tls, m.tcp.query_response))

Ends-ne-panic :
    {V A : Type 0} (P : A → Registry V → Type 0) {o : Outcome V A} → Ends P o → o ≢ panic
Ends-ne-panic P ends e = subst (Ends P) e ends

if-kept :
    (b : Bool) (changed m : Module)
    → kept changed ≡ kept m
    → kept (if b then changed else m) ≡ kept m
if-kept true changed m h = h
if-kept false changed m h = refl

-- The `hostname` of a request changes nothing of this.
apply_tcp_hostname-kept :
    (hostname : String) (m : Module) → kept (apply_tcp_hostname hostname m) ≡ kept m
unfolding apply_tcp_hostname
apply_tcp_hostname-kept hostname m =
    if-kept _ _ m (if-kept (str_eq m.tcp.tls_config.server_name "") _ m refl)

with_headers-kept :
    (m applied : Module) (o : Option (List (String × String)))
    → with_headers m o ≡ some applied
    → kept applied ≡ kept m
with_headers-kept m applied none h = absurd cc
with_headers-kept m applied (some headers) h =
    let same : record m { http = record m.http { headers = headers } } ≡ applied = cc in
    ap kept (sym same)

apply_http_hostname-kept :
    (hostname : String) (m applied : Module)
    → apply_http_hostname hostname m ≡ some applied
    → kept applied ≡ kept m
unfolding apply_http_hostname
apply_http_hostname-kept hostname m applied h =
    elim (Bool-cases (str_eq m.prober "http" && not (str_eq hostname ""))) [
      | inl with_hostname ↦
          with_headers-kept m applied (set_http_host hostname m.http.headers)
            (rw with_hostname at h)
      | inr without ↦
          let same : some m ≡ some applied = rw without at h in
          let equal : m ≡ applied = cc in ap kept (sym equal)
    ]

module _ (fl : Float64) {TcpConn GrpcConn EthClient Abi BtcClient Data : Type 0}
    (env : fl.Num → Outside (fl.Num) TcpConn GrpcConn EthClient Abi BtcClient Data)
    (s : Server (fl.Num)) (dns_answers : (t : fl.Num) → Answers (((env t).dns).resolver))
    (icmp_answers : (t : fl.Num) → Answers (((env t).icmp).resolver))
    (tcp_answers : (t : fl.Num) → Answers (((env t).tcp).resolver)) (max_alloc : ℕ)
    (alloc : (t : fl.Num) → ((env t).icmp).max_alloc ≡ max_alloc)
    (header : (t : fl.Num) → HasHeader ((env t).icmp)) where
  open fl use {Num}

  run_probe-ne-panic :
      (p : ProbeFn) (t : Num) (target : String) (values : Values) (configured m : Module)
      → probers configured.prober ≡ some p
      → IsTotal max_alloc configured
      → kept m ≡ kept configured
      → run_probe fl env p t target values m (registry fl (with_probers fl env s)) ≢ panic
  unfolding run_probe probers lookup
  run_probe-ne-panic p t target values configured m known (by_dns is_dns) same =
      let named : probers "dns" ≡ some p = subst (λ x. probers x ≡ some p) is_dns known in
      let is_probe : probe_dns ≡ p = cc in
      rw (← is_probe)
        (Ends-ne-panic _ (probe_dns-Gives fl ((env t).dns) m.dns target _ (dns_answers t) refl))
  run_probe-ne-panic p t target values configured m known (by_icmp size is_icmp sized fits) same =
      let named : probers "icmp" ≡ some p = subst (λ x. probers x ≡ some p) is_icmp known in
      let is_probe : probe_icmp ≡ p = cc in
      rw (← is_probe) (
        Ends-ne-panic _ (
          probe_icmp-Gives fl ((env t).icmp) (header t) m.icmp size target _ (icmp_answers t)
            (ap (λ k. (k.0).payload_size) same ∙ sized) (rw (alloc t) fits) refl))
  run_probe-ne-panic p t target values configured m known (by_plain_tcp is_tcp plain no_tls) same =
      let named : probers "tcp" ≡ some p = subst (λ x. probers x ≡ some p) is_tcp known in
      let is_probe : probe_tcp ≡ p = cc in
      rw (← is_probe) (
        Ends-ne-panic _ (
          probe_tcp-Gives fl ((env t).tcp) m.tcp target _ (tcp_answers t)
            (ap (λ k. (k.1).0) same ∙ plain)
            (subst (All (λ qr. qr.start_tls ≡ false)) (sym (ap (λ k. (k.1).1) same)) no_tls) refl))

  -- A request of /probe for a module with a DNS probe, with an ICMP probe whose payload has a
  -- size for which `make` does not panic, or with a TCP probe without TLS, is always answered: it never ends in a panic. Assumed is
  -- that `LookupIP` gives an address or an error, and that a marshalled ICMP message has four bytes
  -- at least.
  pub handler-ne-panicked :
      (r : Request) (params : Option Values) (st : State) (m : Module)
      → lookup (or_http_2xx (get "module" (params_or_query params r))) s.config.modules ≡ some m
      → IsTotal max_alloc m
      → handler fl (with_probers fl env s) r params st ≢ panicked
  handler-ne-panicked r params st m found total crash =
      let c : Crashed fl (with_probers fl env s) (params_or_query params r) r.scrape_timeout
          (or_http_2xx (get "module" (params_or_query params r))) =
        subst
          (Serves fl (with_probers fl env s) (params_or_query params r) r.scrape_timeout
            (or_http_2xx (get "module" (params_or_query params r))) (get "debug" r.query) st)
          crash (probe-Serves fl env s r params st) in
      let found_too = c.found in
      let same : c.configured ≡ m = cc in
      run_probe-ne-panic c.prober c.timeout _ _ c.configured _ c.known
        (subst (IsTotal max_alloc) (sym same) total)
        (apply_tcp_hostname-kept _ c.applied
          ∙ apply_http_hostname-kept _ c.configured c.applied c.hosted)
        c.crashed
