-- ===== src/Icmp/Tests.antt =====
-- An ICMP probe of one address, and the theorems at that run.
use mathlib.Core.List.{Memᴰ}
use big_blackbox_exporter.Base.{
  ℕ, ◌≡◌, lt→ltb, ◌≢◌, ◌↔◌, ◌<◌, ◌^◌, refl, Bool, true, false, List, [], ◌∷◌, some, none, str_eq,
  arith,
}
use big_blackbox_exporter.Base.Int.{ℤ, pos}
use big_blackbox_exporter.Float64.Millis.{millis}
use big_blackbox_exporter.Ip.{IpAddr, is_v4, ip_hash}
use big_blackbox_exporter.Config.{IcmpProbe, default_icmp_probe}
use big_blackbox_exporter.Protocol.{found, lookup_error, search_ips, choose_protocol}
use big_blackbox_exporter.Metrics.{
  Registry, new_registry, Outcome, done, panic, value_of, must_register, ensure, or_fail, or_fault,
}
use big_blackbox_exporter.Icmp.Sequence.{get_icmp_sequence, nth_sequence, nth_sequence-ne}
use big_blackbox_exporter.Icmp.Message.{
  Packet, Read, received, read_error, Expected, echo_reply_v4, payload, await_reply,
}
use big_blackbox_exporter.Icmp.Message.Reply.{IsReply, await_reply_iff}
use big_blackbox_exporter.Icmp.Probe.{IcmpEnv, report_reply, exchange, ping, open_icmp, probe_icmp}
use big_blackbox_exporter.Metrics.Inversion.{Ends}
use big_blackbox_exporter.Metrics.Verdicts.{Gives}
use big_blackbox_exporter.Icmp.Probe.Total.{HasHeader, icmp_verdict, probe_icmp-Gives}
use big_blackbox_exporter.Icmp.Probe.Soundness.{IsResolved, Echoed, probe_icmp-Echoed}

-- Two numbers with the overflow of the variable between them.
nth_sequence-ne_example :
    (nth_sequence 65534 0 < 2 ^ 16) × (nth_sequence 65534 0 ≢ nth_sequence 65534 3)
nth_sequence-ne_example = nth_sequence-ne 65534 0 3 (omega arith) (omega arith)

abbrev expected : Expected
expected = record {
  reply_type = echo_reply_v4;
  id_unknown = true;
  destination = "10.0.0.9:0";
  bytes = 0 ∷ 0 ∷ 0 ∷ 0 ∷ 0 ∷ 0 ∷ 5 ∷ 0 ∷ [];
  hop_limit_flag_set = true;
}

-- An error, a packet of another host, and the reply with the ID and checksum of the kernel.
abbrev reads : List Read
reads =
    read_error
    ∷ received (record { bytes = 1 ∷ []; peer = "10.0.0.7:0"; control = none })
    ∷ received (record {
      bytes = 0 ∷ 0 ∷ 9 ∷ 9 ∷ 5 ∷ 5 ∷ 5 ∷ 0 ∷ [];
      peer = "10.0.0.9:0";
      control = some (pos 61);
    })
    ∷ []

await_reply_iff_example :
    ((hop : ℤ) × (await_reply expected reads ≡ some hop))
    ↔ ((p : Packet) × Memᴰ (received p) reads × IsReply expected p)
await_reply_iff_example = await_reply_iff expected reads

await_reply_finds : await_reply expected reads ≡ some (pos 61)
unfolding await_reply
await_reply_finds = refl

abbrev pro : List ℕ
pro = 80 ∷ 114 ∷ 111 ∷ []

three_bytes : payload 281474976710656 (pos 3) ≡ some pro
unfolding payload
three_bytes = refl

abbrev addr : IpAddr
addr = record { ip = 10 ∷ 0 ∷ 0 ∷ 9 ∷ []; zone = "" }

abbrev env : IcmpEnv ℤ
env = record {
  resolver = record {
    lookup_ip = λ _ _. lookup_error "no such host";
    lookup_ip_addr = λ _. found (addr ∷ []);
  };
  lookup_time = pos 1;
  goos = "linux";
  max_alloc = 281474976710656;
  parse_ip = λ _. some (0 ∷ 0 ∷ 0 ∷ 0 ∷ []);
  ip_text = λ _. "0.0.0.0";
  addr_text = λ _ _. "10.0.0.9:0";
  icmp_listen = λ network _. str_eq network "udp4";
  net_listen = λ _ _. false;
  new_raw_conn = false;
  set_control_message = true;
  icmp_id = 7;
  icmp_sequence = 4;
  marshal = λ m. some (0 ∷ 0 ∷ 1 ∷ 2 ∷ m.id ∷ 0 ∷ m.seq ∷ 0 ∷ m.payload);
  setup_seconds = pos 2;
  write = λ _. some (
      read_error
      ∷ received (record {
        bytes = 0 ∷ 0 ∷ 9 ∷ 9 ∷ 5 ∷ 5 ∷ 5 ∷ 0 ∷ 80 ∷ 114 ∷ 111 ∷ [];
        peer = "10.0.0.9:0";
        control = some (pos 61);
      })
      ∷ []);
  set_read_deadline = true;
  rtt_seconds = pos 3;
}

abbrev config : IcmpProbe
config = record default_icmp_probe { payload_size = pos 3 }

run : Outcome ℤ Bool
unfolding probe_icmp ping exchange report_reply open_icmp await_reply payload get_icmp_sequence
    choose_protocol must_register ensure or_fail or_fault is_v4 ip_hash
run = probe_icmp millis env config "host" new_registry

registry_of : Outcome ℤ Bool → Registry ℤ
registry_of panic = new_registry
registry_of (done b reg) = reg

run_succeeds : run ≡ done true (registry_of run)
unfolding run registry_of
run_succeeds = refl

run_hop_limit : value_of "probe_icmp_reply_hop_limit" [] (registry_of run) ≡ some (pos 61)
unfolding run registry_of
run_hop_limit = refl

probe_icmp-Echoed_example :
    (a : IpAddr) × IsResolved millis env config "host" a
    × Echoed millis env config a (registry_of run)
unfolding run
probe_icmp-Echoed_example =
    probe_icmp-Echoed millis env config "host" new_registry (registry_of run) run_succeeds

-- The registry that the handler gives a probe.
abbrev start : Registry ℤ
start = record { registered = "probe_duration_seconds" ∷ "probe_success" ∷ []; samples = [] }

has_header : HasHeader env
has_header m bytes e =
    let same : 0 ∷ 0 ∷ 1 ∷ 2 ∷ m.id ∷ 0 ∷ m.seq ∷ 0 ∷ m.payload ≡ bytes = cc in
    rw (← same) (lt→ltb 3 _ (omega arith))

probe_icmp-Gives_example :
    Ends (Gives (icmp_verdict millis env config "host")) (probe_icmp millis env config "host" start)
probe_icmp-Gives_example =
    probe_icmp-Gives millis env has_header config 3 "host" start (λ network host e. cc) refl
      (omega arith) refl

verdicts :
    (icmp_verdict millis env config "host" ≡ true)
    × (icmp_verdict millis (record env { set_read_deadline = false }) config "host" ≡ false)
unfolding is_v4 search_ips open_icmp await_reply payload get_icmp_sequence
verdicts = (refl, refl)
