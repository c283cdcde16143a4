-- ===== src/Icmp/Probe/Soundness.antt =====
-- What an ICMP probe that succeeds has seen.
use big_blackbox_exporter.Base.{
  ◌≡◌, refl, Bool, true, false, List, [], String, Option, some, ℕ, Bool-cases, inl, inr,
}
use big_blackbox_exporter.Base.Int.{ℤ, pos, ltb_ℤ}
use big_blackbox_exporter.Float64.{Float64}
use big_blackbox_exporter.Ip.{Ip, IpAddr, is_v4}
use big_blackbox_exporter.Config.{IcmpProbe}
use big_blackbox_exporter.Protocol.{Chosen, choose_protocol}
use big_blackbox_exporter.Icmp.Message.{Read, payload}
use big_blackbox_exporter.Icmp.Message.Reply.{Replied, await_reply-Replied}
use big_blackbox_exporter.Icmp.Probe.{
  IcmpEnv, Socket, source_or_any, configured_source, open_socket, request, reply, without_checksum,
  packet_of, expected, report_reply, exchange, ping, after_resolution, probe_icmp,
}
use big_blackbox_exporter.Metrics.{Registry, done, value_of, contains, is_nil, must_register}
use big_blackbox_exporter.Metrics.Inversion.{
  Partly, Partly-elim, Partly-weaken, Partly-or_fail, Partly-ensure, Partly-register,
  Partly-or_fault, Partly-step,
}

module _ (fl : Float64) (env : IcmpEnv (fl.Num)) where
  open fl use {Num, of_int}

  abbrev pub IsShown : (hop_limit : ℤ) → Registry Num → Type 0
  IsShown hop_limit reg =
      ltb_ℤ hop_limit (pos 0) ≡ false
      → value_of "probe_icmp_reply_hop_limit" [] reg ≡ some (of_int hop_limit)

  -- The exchange of a request with its reply.
  pub record Echoed (config : IcmpProbe) (addr : IpAddr) (reg : Registry Num) : Type 0 where
    pub configured : Option Ip
    pub socket : Socket
    pub body : List ℕ
    pub request_bytes : List ℕ
    pub reply_bytes : List ℕ
    pub compared_bytes : List ℕ
    pub reads : List Read
    pub hop_limit : ℤ
    pub source_known : configured_source config env.parse_ip ≡ some configured
    pub opened :
        open_socket env
          (is_v4 addr.ip)
          config.dont_fragment
          (env.ip_text (source_or_any env (is_v4 addr.ip) configured))
        ≡ some socket
    pub has_body : payload env.max_alloc config.payload_size ≡ some body
    pub has_request : env.marshal (request env (is_v4 addr.ip) body) ≡ some request_bytes
    pub has_reply : env.marshal (reply env (is_v4 addr.ip) socket body) ≡ some reply_bytes
    pub is_compared : without_checksum env socket reply_bytes ≡ some compared_bytes
    pub written :
        env.write (
          packet_of env config socket
            (source_or_any env (is_v4 addr.ip) configured)
            addr
            request_bytes)
        ≡ some reads
    pub replied : Replied (expected env (is_v4 addr.ip) socket addr compared_bytes) reads hop_limit
    pub shown : IsShown hop_limit reg

  abbrev Success : IcmpProbe → IpAddr → Bool → Registry Num → Type 0
  Success config addr b reg = b ≡ true → Echoed config addr reg

  report_reply-IsShown :
      (hop_limit : ℤ) (reg : Registry Num)
      → Partly (λ b. IsShown hop_limit) (report_reply fl env hop_limit reg)
  unfolding report_reply must_register
  report_reply-IsShown hop_limit reg = elim (Bool-cases (ltb_ℤ hop_limit (pos 0))) [
    | inl negative ↦ rw negative (λ e. cc)
    | inr known ↦ elim (Bool-cases (contains "probe_icmp_reply_hop_limit" reg.registered)) [
      | inl twice ↦ rw (known, twice) tt
      | inr new ↦ rw (known, new) (λ e. refl)
    ]
  ]

  ping-Echoed :
      (config : IcmpProbe) (addr : IpAddr) (reg : Registry Num)
      → Partly (Success config addr) (ping fl env config addr reg)
  unfolding ping exchange
  ping-Echoed config addr reg =
      let P = Success config addr in
      Partly-or_fail P _ _ reg (λ e. cc)
        λ configured source_known.
          Partly-or_fail P _ _ reg (λ e. cc)
            λ socket opened. Partly-or_fault P _ _ reg λ body has_body.
              Partly-or_fail P _ _ reg (λ e. cc)
                λ request_bytes has_request.
                  Partly-or_fail P _ _ _ (λ e. cc)
                    λ reads written.
                      Partly-or_fail P _ _ _ (λ e. cc)
                        λ reply_bytes has_reply.
                          Partly-or_fault P _ _ _ λ compared_bytes is_compared.
                            Partly-ensure P _ _ _ (λ e. cc)
                              λ deadline.
                                Partly-or_fail P _ _ _ (λ e. cc)
                                  λ hop_limit found.
                                    Partly-weaken (λ b. IsShown hop_limit) P _
                                      (report_reply-IsShown hop_limit _)
                                      λ b reg' shown e. record {
                                        configured = configured;
                                        socket = socket;
                                        body = body;
                                        request_bytes = request_bytes;
                                        reply_bytes = reply_bytes;
                                        compared_bytes = compared_bytes;
                                        reads = reads;
                                        hop_limit = hop_limit;
                                        source_known = source_known;
                                        opened = opened;
                                        has_body = has_body;
                                        has_request = has_request;
                                        has_reply = has_reply;
                                        is_compared = is_compared;
                                        written = written;
                                        replied = await_reply-Replied _ reads hop_limit found;
                                        shown = shown;
                                      }

  -- The address to which the target was resolved, by a resolution without an error.
  pub record IsResolved (config : IcmpProbe) (target : String) (addr : IpAddr) : Type 0 where
    pub before : Registry Num
    pub after : Registry Num
    pub resolved : Chosen Num
    pub ran :
        choose_protocol fl env.resolver env.lookup_time config.ip_protocol
          config.ip_protocol_fallback target before
        ≡ done resolved after
    pub no_error : is_nil resolved.err ≡ true
    pub has_ip : resolved.ip ≡ some addr

  abbrev Answered : IcmpProbe → String → Bool → Registry Num → Type 0
  Answered config target b reg =
      b ≡ true → (addr : IpAddr) × IsResolved config target addr × Echoed config addr reg

  after_resolution-Answered :
      (config : IcmpProbe) (target : String) (before after : Registry Num) (resolved : Chosen Num)
      → choose_protocol fl env.resolver env.lookup_time config.ip_protocol
          config.ip_protocol_fallback target before
        ≡ done resolved after
      → Partly (Answered config target) (after_resolution fl env config resolved after)
  after_resolution-Answered config target before after resolved ran =
      let P = Answered config target in
      Partly-ensure P (is_nil resolved.err) _ after (λ e. cc)
        λ no_error. Partly-or_fault P resolved.ip (ping fl env config) _ λ addr has_ip.
          Partly-weaken (Success config addr) P _ (ping-Echoed config addr _) λ b reg' echoed e. (
            addr,
            record {
              before = before;
              after = after;
              resolved = resolved;
              ran = ran;
              no_error = no_error;
              has_ip = has_ip;
            },
            echoed e,
          )

  -- An ICMP probe that succeeds has resolved its target to an address, sent the echo request for
  -- the configured payload to it, and read a packet from that address which, but for the ID and the
  -- checksum where those are the kernel's, has the bytes of the echo reply. The gauge shows the
  -- packet's hop limit where it is known.
  pub probe_icmp-Echoed :
      (config : IcmpProbe) (target : String) (reg reg' : Registry Num)
      → probe_icmp fl env config target reg ≡ done true reg'
      → (addr : IpAddr) × IsResolved config target addr × Echoed config addr reg'
  unfolding probe_icmp
  probe_icmp-Echoed config target reg reg' h =
      let P = Answered config target in
      Partly-elim P _
        (Partly-register P "probe_icmp_duration_seconds" _ _ (
          Partly-step P _ _
            λ resolved reg₁ ran. after_resolution-Answered config target _ reg₁ resolved ran))
        h refl
