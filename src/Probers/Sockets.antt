-- ===== src/Probers/Sockets.antt =====
-- The probes for DNS, ICMP, TCP and gRPC leave the gauge `probe_success` to the handler.
use big_blackbox_exporter.Base.{
  ℕ, Bool, true, not, ◌||◌, List, [], ◌∷◌, String, Option, some, none, ◌==◌, str_eq, if◌then◌else◌,
  Option-cases, inl, inr,
}
use big_blackbox_exporter.Base.Int.{ℤ, pos, ltb_ℤ}
use big_blackbox_exporter.Float64.{Float64}
use big_blackbox_exporter.Metrics.{
  Registry, Probe, return, is_nil, must_register, ◌>>=◌, ◌>>◌, add_gauge,
}
use big_blackbox_exporter.Metrics.Inversion.{
  Partly, Partly-register, Partly-or_fail, Partly-or_fault, Partly-ensure,
}
use big_blackbox_exporter.Metrics.Unset.{IsUnset, Unset, Partly-if, Unset-bind}
use big_blackbox_exporter.Ip.{Ip, IpAddr}
use big_blackbox_exporter.Config.{DnsProbe, IcmpProbe}
use big_blackbox_exporter.Protocol.{
  Resolver, Chosen, Lookup, found, lookup_error, Search, wanted, fallback, search_ips, ip4_or_ip6,
  choose_only, finish_search, choose_with_fallback, choose_protocol,
}
use big_blackbox_exporter.Dns.{Rr}
use big_blackbox_exporter.Dns.Probe.{
  DnsEnv, DnsResponse, type_soa, set_serials, report_soa, check_response, send, probe_dns,
}
use big_blackbox_exporter.Icmp.Probe.{
  IcmpEnv, show_hop_limit, report_reply, exchange, ping, probe_icmp,
}

module _ (fl : Float64) where
  open fl use {Num, of_int, add}

  choose_only-Unset :
      (v4 : Bool) (time : Num) (l : Lookup Ip) (reg : Registry Num)
      → IsUnset reg
      → Partly Unset (choose_only fl v4 time l reg)
  choose_only-Unset v4 time (lookup_error e) reg u = u
  choose_only-Unset v4 time (found []) reg u = u
  choose_only-Unset v4 time (found (ip ∷ _)) reg u = u

  finish_search-Unset :
      (v4 : Bool) (time : Num) (s : Search) (reg : Registry Num)
      → IsUnset reg
      → Partly Unset (finish_search fl v4 time s reg)
  finish_search-Unset v4 time (wanted addr) reg u = u
  finish_search-Unset v4 time (fallback none) reg u = u
  finish_search-Unset v4 time (fallback (some addr)) reg u = u

  choose_with_fallback-Unset :
      (v4 : Bool) (time : Num) (l : Lookup IpAddr) (reg : Registry Num)
      → IsUnset reg
      → Partly Unset (choose_with_fallback fl v4 time l reg)
  choose_with_fallback-Unset v4 time (lookup_error e) reg u = u
  choose_with_fallback-Unset v4 time (found addrs) reg u =
      finish_search-Unset v4 time (search_ips v4 none addrs) reg u

  abbrev and_registered : String → Registry Num → Registry Num
  and_registered name reg = record reg { registered = name ∷ reg.registered }

  pub choose_protocol-Unset :
      (net : Resolver) (time : Num) (protocol : String) (with_fallback : Bool) (target : String)
      (reg : Registry Num)
      → IsUnset reg
      → Partly Unset (choose_protocol fl net time protocol with_fallback target reg)
  unfolding choose_protocol
  choose_protocol-Unset net time protocol with_fallback target reg u =
      Partly-register P "probe_ip_protocol"
        (λ _. must_register "probe_dns_lookup_time_seconds" >> after_lookup) reg
        (Partly-register P "probe_dns_lookup_time_seconds" (λ _. after_lookup)
          (and_registered "probe_ip_protocol" reg)
          (Partly-register P "probe_ip_addr_hash" (λ _. choose >>= counted)
            (and_registered "probe_dns_lookup_time_seconds"
              (and_registered "probe_ip_protocol" reg))
            (Unset-bind {A = Chosen Num} {B = Chosen Num} (choose registered) counted
              (Partly-if P (not with_fallback) (choose_only fl v4 time only)
                (choose_with_fallback fl v4 time all) registered
                (choose_only-Unset v4 time only registered u)
                (choose_with_fallback-Unset v4 time all registered u))
              λ chosen reg' u'. u')))
    where
      P : Chosen Num → Registry Num → Type 0
      P = Unset

      v4 : Bool
      v4 = not (str_eq protocol "ip6" || str_eq protocol "")

      registered : Registry Num
      registered =
          and_registered "probe_ip_addr_hash" (
            and_registered "probe_dns_lookup_time_seconds" (and_registered "probe_ip_protocol" reg))

      only : Lookup Ip
      only = net.lookup_ip (ip4_or_ip6 fl v4) target

      all : Lookup IpAddr
      all = net.lookup_ip_addr target

      choose : Probe Num (Chosen Num)
      choose =
          if not with_fallback
          then choose_only fl v4 time only
          else choose_with_fallback fl v4 time all

      counted : Chosen Num → Probe Num (Chosen Num)
      counted chosen =
          add_gauge add (of_int (pos 0)) "probe_dns_lookup_time_seconds" [] time >> return chosen

      after_lookup : Probe Num (Chosen Num)
      after_lookup = must_register "probe_ip_addr_hash" >> (choose >>= counted)

  set_serials-Unset :
      (rrs : List Rr) (reg : Registry Num) → IsUnset reg → Partly Unset (set_serials fl rrs reg)
  unfolding set_serials
  set_serials-Unset [] reg u = u
  set_serials-Unset (rr ∷ rrs) reg u = elim (Option-cases rr.serial) [
    | inl other ↦ rw other (set_serials-Unset rrs reg u)
    | inr (serial, soa) ↦ rw soa (set_serials-Unset rrs _ u)
  ]

  report_soa-Unset :
      (qt : ℕ) (rrs : List Rr) (reg : Registry Num)
      → IsUnset reg
      → Partly Unset (report_soa fl qt rrs reg)
  unfolding report_soa
  report_soa-Unset qt rrs reg u =
      Partly-if Unset (qt == type_soa) (must_register "probe_dns_serial" >> set_serials fl rrs)
        (return tt) reg (Partly-register Unset "probe_dns_serial" _ reg (set_serials-Unset rrs _ u))
        u

module _ (fl : Float64) (env : DnsEnv (fl.Num)) where
  open fl use {Num}

  check_response-Unset :
      (dns : DnsProbe) (qt : ℕ) (exchanged : Option DnsResponse) (reg : Registry Num)
      → IsUnset reg
      → Partly Unset (check_response fl env dns qt exchanged reg)
  unfolding check_response
  check_response-Unset dns qt exchanged reg u = Partly-or_fail Unset exchanged _ _ u λ response _.
      Unset-bind (report_soa fl qt response.answer _) _ (report_soa-Unset fl qt response.answer _ u)
        λ unit reg' u'. u'

  send-Unset :
      (dns : DnsProbe) (host port : String) (qc qt : ℕ) (addr : IpAddr) (reg : Registry Num)
      → IsUnset reg
      → Partly Unset (send fl env dns host port qc qt addr reg)
  unfolding send
  send-Unset dns host port qc qt addr reg u = Partly-or_fail Unset _ _ reg u λ net _.
      Partly-or_fail Unset _ _ reg u
        λ name _. Partly-or_fail Unset _ _ reg u λ local _. check_response-Unset dns qt _ reg u

  pub probe_dns-Unset :
      (dns : DnsProbe) (target : String) (reg : Registry Num)
      → IsUnset reg
      → Partly Unset (probe_dns fl env dns target reg)
  unfolding probe_dns
  probe_dns-Unset dns target reg u = Partly-register Unset "probe_dns_duration_seconds" _ _ (
      Partly-register Unset "probe_dns_answer_rrs" _ _ (
        Partly-register Unset "probe_dns_authority_rrs" _ _ (
          Partly-register Unset "probe_dns_additional_rrs" _ _ (
            Partly-register Unset "probe_dns_query_succeeded" _ _ (
              Partly-or_fail Unset _ _ _ u λ qc _. Partly-or_fail Unset _ _ _ u λ qt _.
                Partly-ensure Unset _ _ _ u λ _.
                  Unset-bind _ _ (choose_protocol-Unset fl _ _ _ _ _ _ u) λ resolved reg' u'.
                    Partly-ensure Unset (is_nil resolved.err) _ reg' u' λ _.
                      Partly-or_fault Unset resolved.ip _ _
                        λ addr _. send-Unset dns _ _ qc qt addr _ u')))))

module _ (fl : Float64) (env : IcmpEnv (fl.Num)) where
  open fl use {Num}

  report_reply-Unset :
      (hop_limit : ℤ) (reg : Registry Num)
      → IsUnset reg
      → Partly Unset (report_reply fl env hop_limit reg)
  unfolding report_reply
  report_reply-Unset hop_limit reg u =
      Partly-if Unset (not (ltb_ℤ hop_limit (pos 0))) (show_hop_limit fl env hop_limit)
        (return true) _ (Partly-register Unset "probe_icmp_reply_hop_limit" _ _ u) u

  ping-Unset :
      (config : IcmpProbe) (addr : IpAddr) (reg : Registry Num)
      → IsUnset reg
      → Partly Unset (ping fl env config addr reg)
  unfolding ping exchange
  ping-Unset config addr reg u = Partly-or_fail Unset _ _ reg u λ configured _.
      Partly-or_fail Unset _ _ reg u λ socket _. Partly-or_fault Unset _ _ reg λ body _.
        Partly-or_fail Unset _ _ reg u λ request _. Partly-or_fail Unset _ _ _ u λ reads _.
          Partly-or_fail Unset _ _ _ u λ marshalled _. Partly-or_fault Unset _ _ _ λ bytes _.
            Partly-ensure Unset _ _ _ u
              λ _. Partly-or_fail Unset _ _ _ u λ hop_limit _. report_reply-Unset hop_limit _ u

  pub probe_icmp-Unset :
      (config : IcmpProbe) (target : String) (reg : Registry Num)
      → IsUnset reg
      → Partly Unset (probe_icmp fl env config target reg)
  unfolding probe_icmp
  probe_icmp-Unset config target reg u = Partly-register Unset "probe_icmp_duration_seconds" _ _ (
      Unset-bind _ _ (choose_protocol-Unset fl _ _ _ _ _ _ u) λ resolved reg' u'.
        Partly-ensure Unset (is_nil resolved.err) _ reg' u'
          λ _. Partly-or_fault Unset resolved.ip _ _ λ addr _. ping-Unset config addr _ u')
