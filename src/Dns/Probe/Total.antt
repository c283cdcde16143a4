-- ===== src/Dns/Probe/Total.antt =====
-- prober/dns.go: the verdict of a DNS probe, which always ends.
use big_blackbox_exporter.Base.{
  ℕ, ◌≡◌, refl, Bool, false, ◌&&◌, ◌||◌, str_eq, List, [], ◌∷◌, String, Option, some, none, ◌==◌,
  Option-cases, inl, inr,
}
use big_blackbox_exporter.Base.Text.{join_host_port}
use big_blackbox_exporter.Float64.{Float64}
use big_blackbox_exporter.Ip.{Ip, IpAddr}
use big_blackbox_exporter.Config.{DnsProbe}
use big_blackbox_exporter.Metrics.{
  Registry, return, contains, must_register, ensure, or_fault, ◌>>◌,
}
use big_blackbox_exporter.Metrics.Inversion.{Ends}
use big_blackbox_exporter.Metrics.Ending.{Ends-bind, Ends-register, Ends-if}
use big_blackbox_exporter.Metrics.Verdicts.{Gives, has, or_fail-Gives, ensure-Gives}
use big_blackbox_exporter.Protocol.{Chosen}
use big_blackbox_exporter.Protocol.Total.{Answers, resolved_ip, IsChosen, choose_protocol-IsChosen}
use big_blackbox_exporter.Dns.{Rr}
use big_blackbox_exporter.Dns.Probe.{
  DnsResponse, DnsEnv, class_inet, type_any, type_soa, code_or, transport, host_port, dial_protocol,
  tls_name, local_addr, validate, set_serials, report_soa, check_response, send, query, probe_dns,
}

module _ (fl : Float64) where
  open fl use {Num}

  abbrev AnyUnit : Unit {0} → Registry Num → Type 0
  AnyUnit unit reg = Unit

  set_serials-Ends : (rrs : List Rr) (reg : Registry Num) → Ends AnyUnit (set_serials fl rrs reg)
  unfolding set_serials
  set_serials-Ends [] reg = tt
  set_serials-Ends (rr ∷ rrs) reg = elim (Option-cases rr.serial) [
    | inl other ↦ rw other (set_serials-Ends rrs reg)
    | inr (serial, soa) ↦ rw soa (set_serials-Ends rrs _)
  ]

  report_soa-Ends :
      (qt : ℕ) (rrs : List Rr) (reg : Registry Num)
      → contains "probe_dns_serial" reg.registered ≡ false
      → Ends AnyUnit (report_soa fl qt rrs reg)
  unfolding report_soa
  report_soa-Ends qt rrs reg new =
      Ends-if AnyUnit (qt == type_soa) (must_register "probe_dns_serial" >> set_serials fl rrs)
        (return tt) reg
        (Ends-register AnyUnit "probe_dns_serial" (λ _. set_serials fl rrs) reg new
          (set_serials-Ends rrs _))
        tt

  module _ (env : DnsEnv Num) (dns : DnsProbe) where
    -- The response to the query that is sent to an address.
    abbrev pub response_from :
        (host port : String) (qc qt : ℕ) (addr : IpAddr) (net : String)
        (server_name : Option String) (local : Option (String × Ip))
        → Option DnsResponse
    response_from host port qc qt addr net server_name local =
        env.exchange (record { net = net; tls_server_name = server_name; local_addr = local })
          (record {
            recursion_desired = dns.recursion;
            name = env.fqdn dns.query_name;
            qtype = qt;
            qclass = qc;
          })
          (join_host_port (env.ip_text addr) port)

    abbrev pub is_answered : (host port : String) (qc qt : ℕ) → IpAddr → Bool
    is_answered host port qc qt addr = has (dial_protocol dns addr.ip) λ net.
        has (tls_name dns host (env.new_tls_config dns.tls_config)) λ server_name.
          has (local_addr dns (env.parse_ip dns.source_ip_address)) λ local.
            has (response_from host port qc qt addr net server_name local) (validate fl env dns)

    -- Class and type are known, the transport too, the host has an address, and the response from
    -- there is valid.
    abbrev pub dns_verdict : (target : String) → Bool
    dns_verdict target =
        let hp = host_port dns target (env.split_host_port target) in
        has (code_or class_inet env.string_to_class dns.query_class) λ qc.
          has (code_or type_any env.string_to_type dns.query_type) λ qt.
            (str_eq (transport dns) "udp" || str_eq (transport dns) "tcp")
            && has (resolved_ip env.resolver dns.ip_protocol dns.ip_protocol_fallback hp.0)
                (is_answered hp.0 hp.1 qc qt)

    check_response-Gives :
        (qt : ℕ) (exchanged : Option DnsResponse) (reg : Registry Num)
        → contains "probe_dns_serial" reg.registered ≡ false
        → Ends
            (Gives (has exchanged (validate fl env dns)))
            (check_response fl env dns qt exchanged reg)
    unfolding check_response
    check_response-Gives qt exchanged reg new =
        or_fail-Gives exchanged _ (validate fl env dns) _ λ response _.
          Ends-bind AnyUnit (Gives (validate fl env dns response))
            (report_soa fl qt response.answer _) _ (report_soa-Ends qt response.answer _ new)
            λ unit reg' _. refl

    send-Gives :
        (host port : String) (qc qt : ℕ) (addr : IpAddr) (reg : Registry Num)
        → contains "probe_dns_serial" reg.registered ≡ false
        → Ends (Gives (is_answered host port qc qt addr)) (send fl env dns host port qc qt addr reg)
    unfolding send
    send-Gives host port qc qt addr reg new = or_fail-Gives _ _ _ reg λ net _.
        or_fail-Gives _ _ _ reg
          λ name _. or_fail-Gives _ _ _ reg λ local _. check_response-Gives qt _ reg new

    query-Gives :
        (names : List String) (host port : String) (qc qt : ℕ) (o : Option IpAddr)
        (resolved : Chosen Num) (reg : Registry Num)
        → contains "probe_dns_serial" names ≡ false
        → IsChosen fl names o resolved reg
        → Ends
            (Gives (has o (is_answered host port qc qt)))
            (query fl env dns host port qc qt resolved reg)
    unfolding or_fault ensure
    query-Gives names host port qc qt none resolved reg new chosen = rw chosen.chose refl
    query-Gives names host port qc qt (some addr) resolved reg new chosen =
        rw (chosen.chose.0, chosen.chose.1)
          (send-Gives host port qc qt addr _ (rw chosen.same_names new))

    -- A DNS probe on the registry that the handler gives it always ends, without a panic, and with
    -- the verdict of a reference that knows nothing of metrics: it succeeds exactly where the class
    -- and the type of the query are known, the transport is UDP or TCP, the host has an address by
    -- the configured protocol and fallback, and the response from this address is valid. Assumed of
    -- the resolver is that `LookupIP` gives an address or an error.
    pub probe_dns-Gives :
        (target : String) (reg : Registry Num)
        → Answers env.resolver
        → reg.registered ≡ "probe_duration_seconds" ∷ "probe_success" ∷ []
        → Ends (Gives (dns_verdict target)) (probe_dns fl env dns target reg)
    unfolding probe_dns
    probe_dns-Gives target reg answers names =
        let P = Gives (dns_verdict target) in
        Ends-register P "probe_dns_duration_seconds" _ _ (rw names refl) (
          Ends-register P "probe_dns_answer_rrs" _ _ (rw names refl) (
            Ends-register P "probe_dns_authority_rrs" _ _ (rw names refl) (
              Ends-register P "probe_dns_additional_rrs" _ _ (rw names refl) (
                Ends-register P "probe_dns_query_succeeded" _ _ (rw names refl) (
                  or_fail-Gives _ _ _ _ λ qc _. or_fail-Gives _ _ _ _ λ qt _.
                    ensure-Gives _ _ _ _ λ _.
                      Ends-bind (IsChosen fl _ _) _ _ _
                        (choose_protocol-IsChosen fl env.resolver _ _ _ _ _ answers (record {
                          protocol = rw names refl;
                          lookup_time = rw names refl;
                          hash = rw names refl;
                        }))
                        λ resolved reg' chosen.
                          query-Gives _ _ _ qc qt _ resolved reg' (rw names refl) chosen)))))
