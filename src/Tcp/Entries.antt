-- ===== src/Tcp/Entries.antt =====
-- prober/tcp.go: the loop of `ProbeTCP` over the query and response entries.
pub mod Dialogue
use Prim.Native.String.{◌++◌ as ◌<>◌}
use big_blackbox_exporter.Base.{
  ℕ, zero, suc, Bool, true, false, not, List, [], ◌∷◌, String, Option, some, none, str_eq,
  if◌then◌else◌,
}
use big_blackbox_exporter.Base.Int.{ℤ, pos}
use big_blackbox_exporter.Float64.{Float64}
use big_blackbox_exporter.Tls.{ConnectionState}
use big_blackbox_exporter.Tls.Report.{report_connection}
use big_blackbox_exporter.Config.{TcpProbe, QueryResponse}
use big_blackbox_exporter.Tcp.Dial.{ScanLine, Incoming, TcpEnv, with_server_name}
use big_blackbox_exporter.Metrics.{Probe, ◌>>=◌, ◌>>◌, return, set_gauge, ensure, or_fail}

-- The line that matches, with the number of lines up to it and the indices of the match.
pub record Hit : Type 0 where
  pub scanned : ℕ
  pub line : String
  pub match : List ℤ

-- How the loop over the lines ends: `failed` is `scanner.Err() != nil` after it.
pub record Scanned : Type 0 where
  pub failed : Bool
  pub hit : Option Hit

abbrev pub one_more : Scanned → Scanned
one_more s = record s {
  hit = elim s.hit [ none ↦ none | some h ↦ some (record h { scanned = suc h.scanned }) ];
}

abbrev pub match_or : ScanLine → Option (List ℤ) → Scanned → Scanned
match_or l none rest = one_more rest
match_or l (some m) rest = record {
  failed = l.failed;
  hit = some (record { scanned = 1; line = l.line; match = m });
}

-- `for scanner.Scan()`, up to a line that matches.
unfoldable pub scan_until : (String → Option (List ℤ)) → List ScanLine → (at_end : Bool) → Scanned
scan_until find [] at_end = record { failed = at_end; hit = none }
scan_until find (l ∷ lines) at_end = match_or l (find l.line) (scan_until find lines at_end)

abbrev pub scan : (String → Option (List ℤ)) → Incoming → Scanned
scan find incoming = scan_until find incoming.lines incoming.failed

-- The host of `net.SplitHostPort`, whose error is ignored.
abbrev pub host_of : Option (String × String) → String
host_of none = ""
host_of (some (host, port)) = host

module _ (fl : Float64) {C : Type 0} (env : TcpEnv (fl.Num) C) where
  open fl use {Num, of_int}

  -- What an entry goes on with.
  abbrev pub Next : Type 0
  Next = (send : String) → C → Probe Num Bool

  abbrev pub on_hit : (re : String) → QueryResponse → C → Option Hit → Next → Probe Num Bool
  on_hit re qr conn none next =
      set_gauge "probe_failed_due_to_regex" [] (of_int (pos 1)) >> return false
  on_hit re qr conn (some h) next =
      set_gauge "probe_failed_due_to_regex" [] (of_int (pos 0))
      >> next (env.expand re qr.send h.line h.match) (env.consume h.scanned conn)

  -- Reading lines until one of them matches, where the entry has an expression.
  abbrev pub expect : Option String → QueryResponse → C → Next → Probe Num Bool
  expect none qr conn next = next qr.send conn
  expect (some re) qr conn next =
      let scanned = scan (env.find re) (env.incoming conn) in
      ensure (not scanned.failed) (on_hit re qr conn scanned.hit next)

  -- `fmt.Fprintf(conn, "%s\n", send)`
  abbrev pub say : String → C → Option C
  say send conn = if not (str_eq send "") then env.send (send <> "\n") conn else some conn

  abbrev pub start_tls : TcpProbe → (target : String) → C → (C → Probe Num Bool) → Probe Num Bool
  start_tls config target conn next = or_fail (env.new_tls_config config.tls_config) λ tls.
      or_fail (env.handshake (with_server_name (host_of (env.split_host_port target)) tls) conn)
        λ upgraded. report_connection fl env.unix env.fingerprint upgraded.1 >> next upgraded.0

  abbrev pub upgrade :
      TcpProbe → (target : String) → QueryResponse → C → (C → Probe Num Bool) → Probe Num Bool
  upgrade config target qr conn next =
      if qr.start_tls then start_tls config target conn next else next conn

  -- Sending, where there is something to send, and the upgrade to TLS.
  abbrev pub answer : TcpProbe → (target : String) → QueryResponse → (C → Probe Num Bool) → Next
  answer config target qr next send conn =
      or_fail (say send conn) λ conn'. upgrade config target qr conn' next

  unfoldable pub run_entries :
      TcpProbe → (target : String) → List QueryResponse → C → Probe Num Bool
  run_entries config target [] conn = return true
  run_entries config target (qr ∷ entries) conn =
      expect qr.expect.regexp qr conn (answer config target qr (run_entries config target entries))
