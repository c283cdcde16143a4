-- ===== src/Icmp/Probe.antt =====
-- prober/icmp.go: `ProbeICMP`.
--
-- What the probe calls outside the repository is the record `IcmpEnv`: the sockets of
-- golang.org/x/net, the encoding of messages, net's addresses, the resolver and the measured times.
-- An error is `none` or `false`. Closing the sockets and logging are left out.
pub mod Soundness
pub mod Total
use big_blackbox_exporter.Base.{
  ℕ, ◌+◌, Bool, true, false, not, ◌&&◌, ◌||◌, List, [], ◌∷◌, String, Option, some, none, str_eq,
  ltb, length, if◌then◌else◌,
}
use big_blackbox_exporter.Base.Int.{ℤ, pos, ltb_ℤ}
use big_blackbox_exporter.Float64.{Float64}
use big_blackbox_exporter.Ip.{Ip, IpAddr, is_v4}
use big_blackbox_exporter.Config.{IcmpProbe, default_icmp_ttl}
use big_blackbox_exporter.Protocol.{Resolver, Chosen, choose_protocol}
use big_blackbox_exporter.Icmp.Sequence.{get_icmp_sequence}
use big_blackbox_exporter.Icmp.Message.{
  IcmpType, echo_v4, echo_reply_v4, echo_v6, echo_reply_v6, Message, payload, clear_pair, Read,
  Expected, await_reply,
}
use big_blackbox_exporter.Metrics.{
  Probe, ◌>>=◌, ◌>>◌, return, must_register, set_gauge, add_gauge, with_labels, ensure, or_fail,
  or_fault, is_nil,
}

-- The header of a raw packet, where a program sets it: `Flags` is `DontFragment`.
pub record Header : Type 0 where
  pub total_len : ℕ
  pub ttl : ℤ
  pub dst : Ip
  pub src : Option Ip

-- What is written to the socket: through `icmpConn` with the time to live where it was set, or
-- through `v4RawConn`.
pub data Sent : Type 0 where
  datagram : (ttl : Option ℤ) → (bytes : List ℕ) → (dst : String) → Sent
  raw_packet : Header → (bytes : List ℕ) → Sent

pub record IcmpEnv (V : Type 0) : Type 0 where
  pub resolver : Resolver
  pub lookup_time : V
  pub goos : String
  -- the greatest length of a byte slice that `make` does not panic for
  pub max_alloc : ℕ
  pub parse_ip : String → Option Ip
  -- `net.IP.String`, which is "<nil>" for a nil address
  pub ip_text : Option Ip → String
  -- the texts of a `net.UDPAddr` and of a `net.IPAddr`
  pub addr_text : (udp : Bool) → IpAddr → String
  -- `icmp.ListenPacket` and `net.ListenPacket`
  pub icmp_listen : (network address : String) → Bool
  pub net_listen : (network address : String) → Bool
  pub new_raw_conn : Bool
  pub set_control_message : Bool
  -- the package's variables `icmpID` and `icmpSequence`
  pub icmp_id : ℕ
  pub icmp_sequence : ℕ
  pub marshal : Message → Option (List ℕ)
  pub setup_seconds : V
  -- `WriteTo`, and what is read from the socket after it, up to the timeout
  pub write : Sent → Option (List Read)
  pub set_read_deadline : Bool
  pub rtt_seconds : V

-- The connection that was opened: raw is `v4RawConn`, and otherwise it is `icmpConn`.
pub record Socket : Type 0 where
  pub raw : Bool
  pub privileged : Bool
  pub hop_limit_flag_set : Bool

abbrev pub request_type : (v4 : Bool) → IcmpType
request_type v4 = if v4 then echo_v4 else echo_v6

abbrev pub reply_type : (v4 : Bool) → IcmpType
reply_type v4 = if v4 then echo_reply_v4 else echo_reply_v6

-- The outer `none` is an address that cannot be parsed.
abbrev pub configured_source : IcmpProbe → (String → Option Ip) → Option (Option Ip)
configured_source config parse =
    if not (str_eq config.source_ip_address "")
    then elim (parse config.source_ip_address) [ none ↦ none | some ip ↦ some (some ip) ]
    else some none

module _ {V : Type 0} (env : IcmpEnv V) where
  abbrev pub source_or_any : (v4 : Bool) → Option Ip → Option Ip
  source_or_any v4 (some ip) = some ip
  source_or_any v4 none = env.parse_ip (if v4 then "0.0.0.0" else "::")

  abbrev pub try_unprivileged : Bool
  try_unprivileged = str_eq env.goos "darwin" || str_eq env.goos "linux"

  -- A socket through `icmp.ListenPacket`, unprivileged where that can be had.
  unfoldable pub open_icmp : (v4 : Bool) → (source : String) → Option Socket
  open_icmp v4 source =
      if try_unprivileged && env.icmp_listen (if v4 then "udp4" else "udp6") source
      then some
          (record { raw = false; privileged = false; hop_limit_flag_set = env.set_control_message })
      else if env.icmp_listen (if v4 then "ip4:icmp" else "ip6:ipv6-icmp") source
      then some
          (record { raw = false; privileged = true; hop_limit_flag_set = env.set_control_message })
      else none

  unfoldable pub open_raw : (source : String) → Option Socket
  open_raw source =
      if env.net_listen "ip4:icmp" source && env.new_raw_conn
      then some
          (record { raw = true; privileged = true; hop_limit_flag_set = env.set_control_message })
      else none

  abbrev pub open_socket : (v4 dont_fragment : Bool) → (source : String) → Option Socket
  open_socket v4 dont_fragment source =
      if v4 && dont_fragment then open_raw source else open_icmp v4 source

  -- `idUnknown`
  abbrev pub id_unknown : Socket → Bool
  id_unknown socket = not socket.privileged && str_eq env.goos "linux"

  abbrev pub request : (v4 : Bool) → List ℕ → Message
  request v4 body = record {
    typ = request_type v4;
    id = env.icmp_id;
    seq = get_icmp_sequence env.icmp_sequence;
    payload = body;
  }

  -- The reply to the request, with the ID 0 where it is unknown.
  abbrev pub reply : (v4 : Bool) → Socket → List ℕ → Message
  reply v4 socket body = record (request v4 body) {
    typ = reply_type v4;
    id = if id_unknown socket then 0 else env.icmp_id;
  }

  -- `wb[2] = 0; wb[3] = 0`, a panic where there are no such bytes.
  abbrev pub without_checksum : Socket → List ℕ → Option (List ℕ)
  without_checksum socket bytes =
      if id_unknown socket
      then (if ltb 3 (length bytes) then some (clear_pair 2 bytes) else none)
      else some bytes

  abbrev pub packet_of : IcmpProbe → Socket → Option Ip → IpAddr → List ℕ → Sent
  packet_of config socket source addr bytes =
      if socket.raw
      then raw_packet
          (record {
            total_len = 20 + length bytes;
            ttl = if ltb_ℤ (pos 0) config.ttl then config.ttl else default_icmp_ttl;
            dst = addr.ip;
            src = source;
          })
          bytes
      else datagram (if ltb_ℤ (pos 0) config.ttl then some config.ttl else none) bytes
          (env.addr_text (not socket.privileged) addr)

  abbrev pub expected : (v4 : Bool) → Socket → IpAddr → List ℕ → Expected
  expected v4 socket addr bytes = record {
    reply_type = reply_type v4;
    id_unknown = id_unknown socket;
    destination = env.addr_text (not socket.privileged) addr;
    bytes = bytes;
    hop_limit_flag_set = socket.hop_limit_flag_set;
  }

module _ (fl : Float64) (env : IcmpEnv (fl.Num)) where
  open fl use {Num, of_int, add}

  abbrev pub add_phase : (phase : String) → Num → Probe Num (Unit {0})
  add_phase phase = add_gauge add (of_int (pos 0)) "probe_icmp_duration_seconds" (phase ∷ [])

  abbrev pub show_hop_limit : (hop_limit : ℤ) → Probe Num Bool
  show_hop_limit hop_limit = do
    set_gauge "probe_icmp_reply_hop_limit" [] (of_int hop_limit)
    must_register "probe_icmp_reply_hop_limit"
    return true

  -- What follows a reply that matches.
  unfoldable pub report_reply : (hop_limit : ℤ) → Probe Num Bool
  report_reply hop_limit =
      add_phase "rtt" env.rtt_seconds
      >> (if not (ltb_ℤ hop_limit (pos 0)) then show_hop_limit hop_limit else return true)

  -- The request is written, and its reply awaited.
  unfoldable pub exchange :
      IcmpProbe
      → Socket
      → (source : Option Ip) → IpAddr
      → (body request_bytes : List ℕ) → Probe Num Bool
  exchange config socket source addr body request_bytes =
      or_fail (env.write (packet_of env config socket source addr request_bytes)) λ reads.
        or_fail (env.marshal (reply env (is_v4 addr.ip) socket body)) λ marshalled.
          or_fault (without_checksum env socket marshalled) λ bytes. ensure env.set_read_deadline (
            or_fail (await_reply (expected env (is_v4 addr.ip) socket addr bytes) reads)
              report_reply)

  unfoldable pub ping : IcmpProbe → IpAddr → Probe Num Bool
  ping config addr = or_fail (configured_source config env.parse_ip) λ configured.
      let source = source_or_any env (is_v4 addr.ip) configured in
      or_fail (open_socket env (is_v4 addr.ip) config.dont_fragment (env.ip_text source)) λ socket.
        or_fault (payload env.max_alloc config.payload_size) λ body.
          or_fail (env.marshal (request env (is_v4 addr.ip) body)) λ bytes. do
            add_phase "setup" env.setup_seconds
            exchange config socket source addr body bytes

  -- What follows the resolution of the target; a nil address is dereferenced.
  abbrev pub after_resolution : IcmpProbe → Chosen Num → Probe Num Bool
  after_resolution config resolved =
      ensure (is_nil resolved.err)
        do add_phase "resolve" resolved.lookup_time; or_fault resolved.ip (ping config)

  unfoldable pub probe_icmp : IcmpProbe → (target : String) → Probe Num Bool
  probe_icmp config target = do
    with_labels (of_int (pos 0)) "probe_icmp_duration_seconds" ("resolve" ∷ [])
    with_labels (of_int (pos 0)) "probe_icmp_duration_seconds" ("setup" ∷ [])
    with_labels (of_int (pos 0)) "probe_icmp_duration_seconds" ("rtt" ∷ [])
    must_register "probe_icmp_duration_seconds"
    resolved ←
        choose_protocol fl env.resolver env.lookup_time config.ip_protocol
          config.ip_protocol_fallback target
    after_resolution config resolved
