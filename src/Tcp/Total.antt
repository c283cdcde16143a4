-- ===== src/Tcp/Total.antt =====
-- prober/tcp.go: the verdict of a TCP probe without TLS, which always ends.
use big_blackbox_exporter.Base.{
  ◌≡◌, refl, Bool, true, false, not, ◌&&◌, List, [], ◌∷◌, String, Option, some, none, All,
  Option-cases, inl, inr,
}
use big_blackbox_exporter.Float64.{Float64}
use big_blackbox_exporter.Ip.{IpAddr}
use big_blackbox_exporter.Tls.{ConnectionState}
use big_blackbox_exporter.Config.{TcpProbe, QueryResponse}
use big_blackbox_exporter.Metrics.{Registry, Probe, and_then, or_fault}
use big_blackbox_exporter.Metrics.Inversion.{Ends}
use big_blackbox_exporter.Metrics.Ending.{Ends-bind, Ends-register}
use big_blackbox_exporter.Metrics.Verdicts.{Gives, has, or_fail-Gives, ensure-Gives}
use big_blackbox_exporter.Protocol.{Chosen, choose_protocol}
use big_blackbox_exporter.Protocol.Total.{
  Answers, resolved_ip, IsChosen, with_chosen, choose_protocol-IsChosen,
}
use big_blackbox_exporter.Tcp.Dial.{
  TcpEnv, Dialed, source_address, dial_from, dial_resolved, dial_host, dial_tcp,
}
use big_blackbox_exporter.Tcp.Entries.{Hit, scan, Next, on_hit, expect, say, run_entries}
use big_blackbox_exporter.Tcp.Probe.{report_dialed, converse, probe_tcp}

module _ (fl : Float64) {C : Type 0} (env : TcpEnv (fl.Num) C) where
  open fl use {Num}

  -- A line that matches, without an error of the scanner up to it, where there is an expression.
  abbrev pub expect_verdict : Option String → QueryResponse → C → (String → C → Bool) → Bool
  expect_verdict none qr conn test = test qr.send conn
  expect_verdict (some re) qr conn test =
      not (scan (env.find re) (env.incoming conn)).failed
      && has (scan (env.find re) (env.incoming conn)).hit
          λ h. test (env.expand re qr.send h.line h.match) (env.consume h.scanned conn)

  -- Each entry hears what it expects and sends its answer, from where the one before ended.
  abbrev pub entries_verdict : List QueryResponse → C → Bool
  entries_verdict [] conn = true
  entries_verdict (qr ∷ entries) conn =
      expect_verdict qr.expect.regexp qr conn
        λ send heard. has (say fl env send heard) (entries_verdict entries)

  expect-Gives :
      (o : Option String) (qr : QueryResponse) (conn : C) (next : Next fl env)
      (test : String → C → Bool) (reg : Registry Num)
      → ((send : String) (heard : C) (reg' : Registry Num)
          → Ends (Gives (test send heard)) (next send heard reg'))
      → Ends (Gives (expect_verdict o qr conn test)) (expect fl env o qr conn next reg)
  expect-Gives none qr conn next test reg step = step qr.send conn reg
  expect-Gives (some re) qr conn next test reg step =
      ensure-Gives _ _ _ reg λ _. on_hit-Gives (scan (env.find re) (env.incoming conn)).hit
    where
      on_hit-Gives :
          (o : Option Hit)
          → Ends
              (Gives (
                has o
                  λ h. test (env.expand re qr.send h.line h.match) (env.consume h.scanned conn)))
              (on_hit fl env re qr conn o next reg)
      on_hit-Gives none = refl
      on_hit-Gives (some h) = step _ _ _

  run_entries-Gives :
      (config : TcpProbe) (target : String) (entries : List QueryResponse)
      → All (λ qr. qr.start_tls ≡ false) entries
      → (conn : C) (reg : Registry Num)
      → Ends
          (Gives (entries_verdict entries conn))
          (run_entries fl env config target entries conn reg)
  unfolding run_entries
  run_entries-Gives config target [] plain conn reg = refl
  run_entries-Gives config target (qr ∷ entries) (no_tls, plain) conn reg =
      expect-Gives qr.expect.regexp qr conn _ _ reg λ send heard reg₁.
        or_fail-Gives (say fl env send heard) _ (entries_verdict entries) reg₁
          λ said _. rw no_tls (run_entries-Gives config target entries plain said reg₁)

  -- The connection that is dialed to the address of the target.
  abbrev pub dialed_at : TcpProbe → (host port : String) → Option IpAddr → Option (Dialed C)
  dialed_at config host port none = none
  dialed_at config host port (some addr) =
      dial_from env config host port addr (source_address env config)

  abbrev pub dialed_to : TcpProbe → Option (String × String) → Option (Dialed C)
  dialed_to config none = none
  dialed_to config (some (host, port)) =
      dialed_at config host port
        (resolved_ip env.resolver config.ip_protocol config.ip_protocol_fallback host)

  -- The target has an address that can be dialed, and the dialogue there goes as configured.
  abbrev pub tcp_verdict : TcpProbe → (target : String) → Bool
  tcp_verdict config target =
      has (dialed_to config (env.split_host_port target))
        λ dialed. env.set_deadline dialed.0 && entries_verdict config.query_response dialed.0

  abbrev IsDialed : Option (Dialed C) → Option (Dialed C) → Registry Num → Type 0
  IsDialed expected dialed reg = dialed ≡ expected

  dial_resolved-IsDialed :
      (config : TcpProbe) (host port : String) (names : List String) (o : Option IpAddr)
      (resolved : Chosen Num) (reg : Registry Num)
      → IsChosen fl names o resolved reg
      → Ends
          (IsDialed (dialed_at config host port o))
          (dial_resolved env config host port resolved reg)
  unfolding or_fault
  dial_resolved-IsDialed config host port names none resolved reg chosen =
      elim (Option-cases resolved.err) [
        | inl well ↦ let nil : true ≡ false = rw well at chosen.chose in absurd cc
        | inr (e, bad) ↦ rw bad refl
      ]
  dial_resolved-IsDialed config host port names (some addr) resolved reg chosen =
      elim (Option-cases resolved.err) [
        | inl well ↦ rw (well, chosen.chose.1) refl
        | inr (e, bad) ↦ let nil : false ≡ true = rw bad at chosen.chose.0 in absurd cc
      ]

  dial_host-IsDialed :
      (config : TcpProbe) (o : Option (String × String)) (reg : Registry Num)
      → Answers env.resolver
      → reg.registered
        ≡ "probe_failed_due_to_regex" ∷ "probe_duration_seconds" ∷ "probe_success" ∷ []
      → Ends (IsDialed (dialed_to config o)) (dial_host fl env config o reg)
  dial_host-IsDialed config none reg answers names = refl
  dial_host-IsDialed config (some (host, port)) reg answers names =
      Ends-bind (IsChosen fl (with_chosen fl reg.registered) ip)
        (IsDialed (dialed_at config host port ip))
        (choose_protocol fl env.resolver env.lookup_time config.ip_protocol
          config.ip_protocol_fallback host reg)
        (dial_resolved env config host port)
        (choose_protocol-IsChosen fl env.resolver env.lookup_time config.ip_protocol
          config.ip_protocol_fallback host reg answers
          (record { protocol = rw names refl; lookup_time = rw names refl; hash = rw names refl }))
        λ resolved reg' chosen.
          dial_resolved-IsDialed config host port (with_chosen fl reg.registered) ip resolved reg'
            chosen
    where
      ip : Option IpAddr
      ip = resolved_ip env.resolver config.ip_protocol config.ip_protocol_fallback host

  -- A connection without TLS has nothing to report.
  unreported :
      (tls : Bool) (state : Option ConnectionState) (P : Bool → Registry Num → Type 0)
      (next : Unit {0} → Probe Num Bool) (reg : Registry Num)
      → tls ≡ false
      → Ends P (next tt reg)
      → Ends P (and_then (report_dialed fl env tls state reg) next)
  unreported true state P next reg plain h = absurd cc
  unreported false state P next reg plain h = h

  -- A TCP probe that uses no TLS, on the registry that the handler gives it, always ends, without a
  -- panic, and with the verdict of a reference that knows nothing of metrics: it succeeds exactly
  -- where the target has an address that can be dialed and the entries are gone through, each of
  -- which finds a line that matches its expression and sends its answer. Assumed of the resolver is
  -- that `LookupIP` gives an address or an error.
  pub probe_tcp-Gives :
      (config : TcpProbe) (target : String) (reg : Registry Num)
      → Answers env.resolver
      → config.tls ≡ false
      → All (λ qr. qr.start_tls ≡ false) config.query_response
      → reg.registered ≡ "probe_duration_seconds" ∷ "probe_success" ∷ []
      → Ends (Gives (tcp_verdict config target)) (probe_tcp fl env config target reg)
  unfolding probe_tcp dial_tcp converse
  probe_tcp-Gives config target reg answers plain no_tls names =
      let P = Gives (tcp_verdict config target) in
      Ends-register P "probe_failed_due_to_regex" _ reg (rw names refl) (
        Ends-bind (IsDialed (dialed_to config (env.split_host_port target))) P _ _
          (dial_host-IsDialed config (env.split_host_port target) _ answers (rw names refl))
          λ dialed reg₁ same. rw (← same) (
            or_fail-Gives dialed _ _ reg₁ λ d _. ensure-Gives (env.set_deadline d.0) _ _ reg₁ λ _.
              unreported config.tls d.1 _ _ reg₁ plain
                (run_entries-Gives config target config.query_response no_tls d.0 reg₁)))
