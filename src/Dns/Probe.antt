-- ===== src/Dns/Probe.antt =====
-- prober/dns.go: `ProbeDNS`.
--
-- What the probe calls outside the repository is the record `DnsEnv`: the tables and the client of
-- miekg/dns, net's parsing of addresses, the resolver and the measured times. `none` is an error.
-- The deadline and the message's random id are left out; logging too.
pub mod Soundness
pub mod Total
use big_blackbox_exporter.Base.{
  ℕ, Bool, true, false, not, ◌&&◌, ◌||◌, List, [], ◌∷◌, String, Option, some, none, str_eq, ◌==◌,
  length, if◌then◌else◌,
}
use Prim.Native.String.{◌++◌ as ◌<>◌}
use big_blackbox_exporter.Base.Text.{join_host_port}
use big_blackbox_exporter.Base.Int.{pos}
use big_blackbox_exporter.Float64.{Float64}
use big_blackbox_exporter.Ip.{Ip, IpAddr, is_v4}
use big_blackbox_exporter.Config.{TlsConfig, DnsProbe}
use big_blackbox_exporter.Protocol.{Resolver, Chosen, choose_protocol}
use big_blackbox_exporter.Dns.{Rr, valid_rrs, valid_rcode}
use big_blackbox_exporter.Metrics.{
  Registry, Outcome, done, Probe, ◌>>=◌, ◌>>◌, return, must_register, set_gauge, add_gauge,
  with_labels, ensure, or_fail, or_fault, is_nil,
}

-- The fields of `dns.Client` that are set; a source address makes a dialer.
pub record DnsClient : Type 0 where
  pub net : String
  pub tls_server_name : Option String
  pub local_addr : Option (String × Ip)

-- The message, with its one question.
pub record DnsMsg : Type 0 where
  pub recursion_desired : Bool
  pub name : String
  pub qtype : ℕ
  pub qclass : ℕ

pub record DnsResponse : Type 0 where
  pub rcode : ℕ
  pub answer : List Rr
  pub ns : List Rr
  pub extra : List Rr

pub record DnsEnv (V : Type 0) : Type 0 where
  pub string_to_class : String → Option ℕ
  pub string_to_type : String → Option ℕ
  pub string_to_rcode : String → Option ℕ
  pub fqdn : String → String
  pub matches : String → String → Option Bool
  pub split_host_port : String → Option (String × String)
  pub parse_ip : String → Option Ip
  pub ip_text : IpAddr → String
  pub new_tls_config : TlsConfig → Option TlsConfig
  pub resolver : Resolver
  pub lookup_time : V
  pub exchange : DnsClient → DnsMsg → String → Option DnsResponse
  pub connect_seconds : V
  pub rtt_seconds : V

-- `dns.ClassINET`, `dns.TypeANY` and `dns.TypeSOA`
abbrev pub class_inet : ℕ
class_inet = 1

abbrev pub type_any : ℕ
type_any = 255

abbrev pub type_soa : ℕ
type_soa = 6

-- A name that is not given stands for a default; another one is looked up.
abbrev pub code_or : ℕ → (String → Option ℕ) → String → Option ℕ
code_or default table name = if not (str_eq name "") then table name else some default

abbrev pub transport : DnsProbe → String
transport dns = if str_eq dns.transport_protocol "" then "udp" else dns.transport_protocol

-- Host and port of the target, with the default port where it has none.
abbrev pub host_port : DnsProbe → String → Option (String × String) → String × String
host_port dns target (some hp) = hp
host_port dns target none = (target, if dns.dns_over_tls then "853" else "53")

-- The network of the client; `none` is the wrong transport for DNS over TLS.
abbrev pub dial_protocol : DnsProbe → Ip → Option String
dial_protocol dns ip =
    let base = transport dns <> (if not (is_v4 ip) then "6" else "4") in
    if dns.dns_over_tls
    then (if str_eq (transport dns) "tcp" then some (base <> "-tls") else none)
    else some base

-- The server's name for DNS over TLS.
abbrev pub tls_name : DnsProbe → String → Option TlsConfig → Option (Option String)
tls_name dns host none = if dns.dns_over_tls then none else some none
tls_name dns host (some tls) = some (
    if dns.dns_over_tls
    then some (if str_eq tls.server_name "" then host else tls.server_name)
    else none)

-- The source address; the outer `none` is an address that cannot be parsed.
abbrev pub local_addr : DnsProbe → Option Ip → Option (Option (String × Ip))
local_addr dns parsed =
    if not (str_eq dns.source_ip_address "")
    then elim parsed [ none ↦ none | some ip ↦ some (some (transport dns, ip)) ]
    else some none

module _ (fl : Float64) where
  open fl use {Num, of_int, add}

  -- The loop over the answers that sets the zone's serial number.
  unfoldable pub set_serials : List Rr → Probe Num (Unit {0})
  set_serials [] = return tt
  set_serials (rr ∷ rrs) = elim rr.serial [
    | none ↦ set_serials rrs
    | some serial ↦ set_gauge "probe_dns_serial" [] (of_int (pos serial)) >> set_serials rrs
  ]

  unfoldable pub report_soa : ℕ → List Rr → Probe Num (Unit {0})
  report_soa qt answer =
      if qt == type_soa then must_register "probe_dns_serial" >> set_serials answer else return tt

  abbrev pub validate : DnsEnv Num → DnsProbe → DnsResponse → Bool
  validate env dns response =
      valid_rcode env.string_to_rcode response.rcode dns.valid_rcodes
      && valid_rrs env.matches response.answer dns.validate_answer
      && valid_rrs env.matches response.ns dns.validate_authority
      && valid_rrs env.matches response.extra dns.validate_additional

  -- What follows the exchange.
  unfoldable pub check_response : DnsEnv Num → DnsProbe → ℕ → Option DnsResponse → Probe Num Bool
  check_response env dns qt exchanged = do
    set_gauge "probe_dns_duration_seconds" ("connect" ∷ []) env.connect_seconds
    set_gauge "probe_dns_duration_seconds" ("request" ∷ []) env.rtt_seconds
    or_fail exchanged λ response. do
      set_gauge "probe_dns_answer_rrs" [] (of_int (pos (length response.answer)))
      set_gauge "probe_dns_authority_rrs" [] (of_int (pos (length response.ns)))
      set_gauge "probe_dns_additional_rrs" [] (of_int (pos (length response.extra)))
      set_gauge "probe_dns_query_succeeded" [] (of_int (pos 1))
      report_soa qt response.answer
      return (validate env dns response)

  -- The configured client and the message go out to the address.
  unfoldable pub send :
      DnsEnv Num → DnsProbe → (host port : String) (qc qt : ℕ) → IpAddr → Probe Num Bool
  send env dns host port qc qt addr = or_fail (dial_protocol dns addr.ip) λ net.
      or_fail (tls_name dns host (env.new_tls_config dns.tls_config)) λ server_name.
        or_fail (local_addr dns (env.parse_ip dns.source_ip_address)) λ local.
          check_response env dns qt (
            env.exchange (record { net = net; tls_server_name = server_name; local_addr = local })
              (record {
                recursion_desired = dns.recursion;
                name = env.fqdn dns.query_name;
                qtype = qt;
                qclass = qc;
              })
              (join_host_port (env.ip_text addr) port))

  -- What follows the resolution of the target; a nil address is dereferenced.
  abbrev pub query :
      DnsEnv Num → DnsProbe → (host port : String) (qc qt : ℕ) → Chosen Num → Probe Num Bool
  query env dns host port qc qt resolved = ensure (is_nil resolved.err) do
    add_gauge add (of_int (pos 0)) "probe_dns_duration_seconds" ("resolve" ∷ [])
        resolved.lookup_time
    or_fault resolved.ip (send env dns host port qc qt)

  unfoldable pub probe_dns : DnsEnv Num → DnsProbe → (target : String) → Probe Num Bool
  probe_dns env dns target = do
    with_labels (of_int (pos 0)) "probe_dns_duration_seconds" ("resolve" ∷ [])
    with_labels (of_int (pos 0)) "probe_dns_duration_seconds" ("connect" ∷ [])
    with_labels (of_int (pos 0)) "probe_dns_duration_seconds" ("request" ∷ [])
    must_register "probe_dns_duration_seconds"
    must_register "probe_dns_answer_rrs"
    must_register "probe_dns_authority_rrs"
    must_register "probe_dns_additional_rrs"
    must_register "probe_dns_query_succeeded"
    or_fail (code_or class_inet env.string_to_class dns.query_class) λ qc.
        or_fail (code_or type_any env.string_to_type dns.query_type) λ qt.
          ensure (str_eq (transport dns) "udp" || str_eq (transport dns) "tcp") do
            let hp = host_port dns target (env.split_host_port target)
            resolved ←
                choose_protocol fl env.resolver env.lookup_time dns.ip_protocol
                  dns.ip_protocol_fallback hp.0
            query env dns hp.0 hp.1 qc qt resolved
