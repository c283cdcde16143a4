-- ===== src/Icmp/Probe/Total.antt =====
-- prober/icmp.go: the verdict of an ICMP probe, which always ends where its payload has a size
-- that can be allocated.
use big_blackbox_exporter.Base.{
  ℕ, zero, suc, ◌≡◌, ◌≤◌, leb, arith, refl, ap, ◌∙◌, Bool, true, false, not, ◌&&◌, List, [], ◌∷◌,
  String, Option, some, none, length, ltb, Bool-cases, inl, inr,
}
use big_blackbox_exporter.Base.Int.{ℤ, pos, ltb_ℤ}
use big_blackbox_exporter.Float64.{Float64}
use big_blackbox_exporter.Ip.{Ip, IpAddr, is_v4}
use big_blackbox_exporter.Config.{IcmpProbe}
use big_blackbox_exporter.Metrics.{Registry, return, contains, ensure, or_fault}
use big_blackbox_exporter.Metrics.Inversion.{Ends}
use big_blackbox_exporter.Metrics.Ending.{Ends-bind, Ends-register, Ends-if}
use big_blackbox_exporter.Metrics.Verdicts.{Gives, has, or_fail-Gives, ensure-Gives}
use big_blackbox_exporter.Protocol.{Chosen}
use big_blackbox_exporter.Protocol.Total.{Answers, resolved_ip, IsChosen, choose_protocol-IsChosen}
use big_blackbox_exporter.Icmp.Message.{copy_into_zeros, exporter_bytes, payload, await_reply}
use big_blackbox_exporter.Icmp.Probe.{
  IcmpEnv, Socket, Message, configured_source, source_or_any, open_socket, request, reply,
  packet_of, expected, id_unknown, without_checksum, show_hop_limit, report_reply, exchange, ping,
  after_resolution, probe_icmp,
}

-- What is marshalled has a type, a code and a checksum.
abbrev pub HasHeader : {V : Type 0} → IcmpEnv V → Type 0
HasHeader env =
    (m : Message) (bytes : List ℕ) → env.marshal m ≡ some bytes → ltb 3 (length bytes) ≡ true

has_payload :
    (max_alloc n : ℕ) → n ≤ max_alloc → (body : List ℕ) × (payload max_alloc (pos n) ≡ some body)
unfolding payload
has_payload max_alloc zero h = (_, refl)
has_payload max_alloc (suc n) h =
    let fits : leb (suc n) max_alloc ≡ true = ground arith in
    (copy_into_zeros (suc n) exporter_bytes, rw fits refl)

module _ (fl : Float64) (env : IcmpEnv (fl.Num)) where
  open fl use {Num}

  has_bytes :
      (socket : Socket) (bytes : List ℕ)
      → ltb 3 (length bytes) ≡ true
      → (cleared : List ℕ) × (without_checksum env socket bytes ≡ some cleared)
  has_bytes socket bytes header = elim (Bool-cases (id_unknown env socket)) [
    | inl unknown ↦ rw (unknown, header) (_, refl)
    | inr known ↦ rw known (bytes, refl)
  ]

  report_reply-Gives :
      (hop_limit : ℤ) (reg : Registry Num)
      → contains "probe_icmp_reply_hop_limit" reg.registered ≡ false
      → Ends (Gives true) (report_reply fl env hop_limit reg)
  unfolding report_reply
  report_reply-Gives hop_limit reg new =
      Ends-if (Gives true) (not (ltb_ℤ hop_limit (pos 0))) (show_hop_limit fl env hop_limit)
        (return true) _ (Ends-register (Gives true) "probe_icmp_reply_hop_limit" _ _ new refl) refl

  -- The request is written, and one of the packets that are read matches the reply.
  abbrev pub is_replied :
      IcmpProbe → Socket → (source : Option Ip) → IpAddr → (body request_bytes : List ℕ) → Bool
  is_replied config socket source addr body request_bytes =
      has (env.write (packet_of env config socket source addr request_bytes)) λ reads.
        has (env.marshal (reply env (is_v4 addr.ip) socket body)) λ marshalled.
          has (without_checksum env socket marshalled) λ bytes.
            env.set_read_deadline
            && has (await_reply (expected env (is_v4 addr.ip) socket addr bytes) reads) λ _. true

  -- A socket is opened, and the echo request of the address is replied to.
  abbrev pub is_pinged : IcmpProbe → IpAddr → Bool
  is_pinged config addr = has (configured_source config env.parse_ip) λ configured.
      let source = source_or_any env (is_v4 addr.ip) configured in
      has (open_socket env (is_v4 addr.ip) config.dont_fragment (env.ip_text source)) λ socket.
        has (payload env.max_alloc config.payload_size) λ body.
          has (env.marshal (request env (is_v4 addr.ip) body))
            λ bytes. is_replied config socket source addr body bytes

  -- The target has an address, which is pinged.
  abbrev pub icmp_verdict : IcmpProbe → (target : String) → Bool
  icmp_verdict config target =
      has (resolved_ip env.resolver config.ip_protocol config.ip_protocol_fallback target)
        (is_pinged config)

  module _ (header : HasHeader env) where
    exchange-Gives :
        (config : IcmpProbe) (socket : Socket) (source : Option Ip) (addr : IpAddr)
        (body request_bytes : List ℕ) (reg : Registry Num)
        → contains "probe_icmp_reply_hop_limit" reg.registered ≡ false
        → Ends
            (Gives (is_replied config socket source addr body request_bytes))
            (exchange fl env config socket source addr body request_bytes reg)
    unfolding exchange or_fault
    exchange-Gives config socket source addr body request_bytes reg new =
        or_fail-Gives _ _ _ reg λ reads _. or_fail-Gives _ _ _ reg λ marshalled is_marshalled.
          let (cleared, some_bytes) =
            has_bytes socket marshalled (header _ marshalled is_marshalled) in
          rw some_bytes (
            ensure-Gives env.set_read_deadline _ _ reg
              λ _. or_fail-Gives _ _ _ reg λ hop_limit _. report_reply-Gives hop_limit reg new)

    ping-Gives :
        (config : IcmpProbe) (size : ℕ) (addr : IpAddr) (reg : Registry Num)
        → config.payload_size ≡ pos size
        → size ≤ env.max_alloc
        → contains "probe_icmp_reply_hop_limit" reg.registered ≡ false
        → Ends (Gives (is_pinged config addr)) (ping fl env config addr reg)
    unfolding ping or_fault
    ping-Gives config size addr reg sized fits new =
        let (body, some_body) = has_payload env.max_alloc size fits in
        let is_body : payload env.max_alloc config.payload_size ≡ some body =
          ap (payload env.max_alloc) sized ∙ some_body in
        or_fail-Gives _ _ _ reg λ configured _. or_fail-Gives _ _ _ reg λ socket _.
          rw is_body (
            or_fail-Gives _ _ _ reg λ bytes _. exchange-Gives config socket _ addr body bytes _ new)

    after_resolution-Gives :
        (names : List String) (config : IcmpProbe) (size : ℕ) (o : Option IpAddr)
        (resolved : Chosen Num) (reg : Registry Num)
        → config.payload_size ≡ pos size
        → size ≤ env.max_alloc
        → contains "probe_icmp_reply_hop_limit" names ≡ false
        → IsChosen fl names o resolved reg
        → Ends (Gives (has o (is_pinged config))) (after_resolution fl env config resolved reg)
    unfolding or_fault ensure
    after_resolution-Gives names config size none resolved reg sized fits new chosen =
        rw chosen.chose refl
    after_resolution-Gives names config size (some addr) resolved reg sized fits new chosen =
        rw (chosen.chose.0, chosen.chose.1)
          (ping-Gives config size addr _ sized fits (rw chosen.same_names new))

    -- An ICMP probe on the registry that the handler gives it always ends where its payload has a
    -- size for which `make` does not panic, without a panic, and with the verdict of a reference that knows nothing of metrics: it
    -- succeeds exactly where the target has an address by the configured protocol and fallback, a
    -- socket can be opened and the request written, and one of the packets that are read matches
    -- the reply. Assumed of the resolver is that `LookupIP` gives an address or an error, and of
    -- `Marshal` that a message has four bytes at least.
    pub probe_icmp-Gives :
        (config : IcmpProbe) (size : ℕ) (target : String) (reg : Registry Num)
        → Answers env.resolver
        → config.payload_size ≡ pos size
        → size ≤ env.max_alloc
        → reg.registered ≡ "probe_duration_seconds" ∷ "probe_success" ∷ []
        → Ends (Gives (icmp_verdict config target)) (probe_icmp fl env config target reg)
    unfolding probe_icmp
    probe_icmp-Gives config size target reg answers sized fits names =
        let P = Gives (icmp_verdict config target) in
        Ends-register P "probe_icmp_duration_seconds" _ _ (rw names refl) (
          Ends-bind (IsChosen fl _ _) P _ _
            (choose_protocol-IsChosen fl env.resolver _ _ _ _ _ answers (record {
              protocol = rw names refl;
              lookup_time = rw names refl;
              hash = rw names refl;
            }))
            λ resolved reg' chosen.
              after_resolution-Gives _ config size _ resolved reg' sized fits (rw names refl)
                chosen)
