-- ===== src/Tcp/Dial.antt =====
-- prober/tcp.go: `dialTCP`, and what the TCP probe gets from outside.
--
-- A connection is a value of a type that is a parameter: what can be scanned from it when nothing
-- more is sent is `incoming`, and sending and the TLS handshake give the connection after them.
-- The deadline and logging are left out; `none` and `false` are errors.
use big_blackbox_exporter.Base.{
  ℕ, Bool, not, List, String, Option, some, none, str_eq, if◌then◌else◌,
}
use big_blackbox_exporter.Base.Text.{join_host_port}
use big_blackbox_exporter.Base.Int.{ℤ}
use big_blackbox_exporter.Float64.{Float64}
use big_blackbox_exporter.Ip.{Ip, IpAddr, is_v4}
use big_blackbox_exporter.Tls.{Time, ConnectionState}
use big_blackbox_exporter.Config.{TlsConfig, TcpProbe}
use big_blackbox_exporter.Protocol.{Resolver, Chosen, choose_protocol}
use big_blackbox_exporter.Metrics.{Probe, ◌>>=◌, return, or_fault}

-- A line for which `scanner.Scan` returns true, with `scanner.Err() != nil` after it: a last line
-- can come with the error that ended the input.
pub record ScanLine : Type 0 where
  pub line : String
  pub failed : Bool

-- The lines up to the end of the input, and whether that was an error.
pub record Incoming : Type 0 where
  pub lines : List ScanLine
  pub failed : Bool

-- The arguments of `Dial`; the local address is that of the dialer.
pub record Dialing : Type 0 where
  pub protocol : String
  pub local_addr : Option Ip
  pub target : String

pub record TcpEnv (V C : Type 0) : Type 0 where
  pub split_host_port : String → Option (String × String)
  pub resolver : Resolver
  pub lookup_time : V
  pub parse_ip : String → Option Ip
  pub ip_text : IpAddr → String
  pub new_tls_config : TlsConfig → Option TlsConfig
  pub dial : Dialing → Option C
  -- `tls.DialWithDialer`, with the state of the connection
  pub dial_tls : Dialing → TlsConfig → Option (C × ConnectionState)
  pub set_deadline : C → Bool
  pub incoming : C → Incoming
  -- the connection after so many of the incoming lines
  pub consume : ℕ → C → C
  pub send : String → C → Option C
  -- `tls.Client` and its `Handshake`
  pub handshake : TlsConfig → C → Option (C × ConnectionState)
  -- `FindSubmatchIndex` and `Expand` of a regular expression
  pub find : String → String → Option (List ℤ)
  pub expand : String → (template line : String) → List ℤ → String
  pub unix : Time → V
  pub fingerprint : List ℕ → String

-- A connection that was dialed, with its TLS state.
abbrev pub Dialed : Type 0 → Type 0
Dialed C = C × Option ConnectionState

abbrev pub with_server_name : String → TlsConfig → TlsConfig
with_server_name host tls =
    if str_eq tls.server_name "" then record tls { server_name = host } else tls

module _ {V C : Type 0} (env : TcpEnv V C) where
  -- The local address; the outer `none` is an address that cannot be parsed.
  abbrev pub source_address : TcpProbe → Option (Option Ip)
  source_address config =
      if not (str_eq config.source_ip_address "")
      then elim (env.parse_ip config.source_ip_address) [ none ↦ none | some ip ↦ some (some ip) ]
      else some none

  abbrev pub without_tls : Option C → Option (Dialed C)
  without_tls none = none
  without_tls (some conn) = some (conn, none)

  abbrev pub with_tls : Option (C × ConnectionState) → Option (Dialed C)
  with_tls none = none
  with_tls (some (conn, state)) = some (conn, some state)

  abbrev pub dial_tls_as : (host : String) → Dialing → Option TlsConfig → Option (Dialed C)
  dial_tls_as host dialing none = none
  dial_tls_as host dialing (some tls) = with_tls (env.dial_tls dialing (with_server_name host tls))

  abbrev pub dial_from :
      TcpProbe → (host port : String) → IpAddr → Option (Option Ip) → Option (Dialed C)
  dial_from config host port addr none = none
  dial_from config host port addr (some local) =
      let dialing : Dialing = record {
        protocol = if not (is_v4 addr.ip) then "tcp6" else "tcp4";
        local_addr = local;
        target = join_host_port (env.ip_text addr) port;
      } in
      if not config.tls
      then without_tls (env.dial dialing)
      else dial_tls_as host dialing (env.new_tls_config config.tls_config)

  -- What follows the resolution; a nil address is dereferenced.
  abbrev pub dial_resolved :
      TcpProbe → (host port : String) → Chosen V → Probe V (Option (Dialed C))
  dial_resolved config host port resolved = elim resolved.err [
    | some e ↦ return none
    | none ↦
        or_fault resolved.ip
          λ addr. return (dial_from config host port addr (source_address config))
  ]

module _ (fl : Float64) {C : Type 0} (env : TcpEnv (fl.Num) C) where
  open fl use {Num}

  abbrev pub dial_host : TcpProbe → Option (String × String) → Probe Num (Option (Dialed C))
  dial_host config none = return none
  dial_host config (some (host, port)) = do
    resolved ←
        choose_protocol fl env.resolver env.lookup_time config.ip_protocol
          config.ip_protocol_fallback host
    dial_resolved env config host port resolved

  unfoldable pub dial_tcp : TcpProbe → (target : String) → Probe Num (Option (Dialed C))
  dial_tcp config target = dial_host config (env.split_host_port target)
