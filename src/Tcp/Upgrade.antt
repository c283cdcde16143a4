-- ===== src/Tcp/Upgrade.antt =====
-- prober/tcp.go: what a TCP probe that succeeds has done, and how often it upgrades to TLS.
use big_blackbox_exporter.Base.{
  ℕ, ◌+◌, ◌≤◌, ◌≡◌, refl, ap, ◌∙◌, Bool, true, false, List, [], ◌∷◌, String, Option, some,
  if◌then◌else◌, arith,
}
use big_blackbox_exporter.Float64.{Float64}
use big_blackbox_exporter.Tls.{ConnectionState}
use big_blackbox_exporter.Tls.Report.Registration.{
  has_expiry, Registered, report_connection-Registered,
}
use big_blackbox_exporter.Config.{TcpProbe, QueryResponse}
use big_blackbox_exporter.Tcp.Dial.{TcpEnv, Dialed, dial_tcp}
use big_blackbox_exporter.Tcp.Entries.{say, run_entries}
use big_blackbox_exporter.Tcp.Entries.Dialogue.{
  Registers, Partly-upgrade, Partly-expect, Dialogue, Success, run_entries-Dialogue,
}
use big_blackbox_exporter.Tcp.Probe.{report_dialed, converse, probe_tcp}
use big_blackbox_exporter.Metrics.{Registry, done, ◌>>◌}
use big_blackbox_exporter.Metrics.Inversion.{
  Partly, Partly-elim, Partly-bind, Partly-skip, Partly-step, Partly-weaken, Partly-or_fail,
  Partly-ensure, Partly-register, Partly-or_fault,
}

abbrev pub one_if : Bool → ℕ
one_if true = 1
one_if false = 0

-- The entries that upgrade to TLS.
abbrev pub upgrades : List QueryResponse → ℕ
upgrades [] = 0
upgrades (qr ∷ entries) = one_if qr.start_tls + upgrades entries

module _ (fl : Float64) {C : Type 0} (env : TcpEnv (fl.Num) C) where
  open fl use {Num}

  -- Once the gauges of a TLS connection are registered no upgrade is survived, and one before.
  abbrev AtMost : ℕ → List QueryResponse → Bool → Registry Num → Type 0
  AtMost n entries b reg = b ≡ true → upgrades entries ≤ n

  abbrev limit : Registry Num → ℕ
  limit reg = if has_expiry reg then 0 else 1

  limit-upgrade :
      (start : Bool) (more : ℕ) (reg reg₁ reg₂ : Registry Num)
      → reg₁.registered ≡ reg.registered
      → Registers fl env start reg₁ reg₂
      → more ≤ limit reg₂
      → one_if start + more ≤ limit reg
  limit-upgrade false more reg reg₁ reg₂ same kept h =
      let e : has_expiry reg₂ ≡ has_expiry reg = cc in ground arith
  limit-upgrade true more reg reg₁ reg₂ same (new, now) h =
      let e : has_expiry reg ≡ false = cc in ground arith

  run_entries-AtMost :
      (config : TcpProbe) (target : String) (entries : List QueryResponse) (conn : C)
      (reg : Registry Num)
      → Partly (AtMost (limit reg) entries) (run_entries fl env config target entries conn reg)
  unfolding run_entries
  run_entries-AtMost config target [] conn reg = λ e. omega arith
  run_entries-AtMost config target (qr ∷ entries) conn reg =
      let P = AtMost (limit reg) (qr ∷ entries) in
      Partly-expect fl env P qr.expect.regexp qr conn _ reg (λ reg' e. cc)
        λ send heard reg₁ h same.
          Partly-or_fail P (say fl env send heard) _ reg₁ (λ e. cc)
            λ said s.
              Partly-upgrade fl env P config target qr.start_tls qr said _ reg₁ refl (λ reg' e. cc)
                λ conn' reg₂ u r.
                  Partly-weaken (AtMost (limit reg₂) entries) P _
                    (run_entries-AtMost config target entries conn' reg₂)
                    λ b reg' few e. limit-upgrade qr.start_tls _ reg reg₁ reg₂ same r (few e)

  abbrev FewUpgrades : TcpProbe → Bool → Registry Num → Type 0
  FewUpgrades config b reg = b ≡ true → one_if config.tls + upgrades config.query_response ≤ 1

  -- The entries after a connection that was dialed with TLS or without.
  reported-FewUpgrades :
      (config : TcpProbe) (target : String) (tls : Bool) (state : Option ConnectionState) (conn : C)
      (reg : Registry Num)
      → config.tls ≡ tls
      → Partly (FewUpgrades config) (
          (report_dialed fl env tls state
              >> run_entries fl env config target config.query_response conn)
            reg)
  reported-FewUpgrades config target false state conn reg off =
      Partly-weaken (AtMost (limit reg) config.query_response) (FewUpgrades config) _
        (run_entries-AtMost config target config.query_response conn reg)
        λ b reg' few e. rw off (bounded (upgrades config.query_response) (has_expiry reg) (few e))
    where
      bounded : (n : ℕ) (known : Bool) → n ≤ (if known then 0 else 1) → 0 + n ≤ 1
      bounded n true h = omega arith
      bounded n false h = omega arith
  reported-FewUpgrades config target true state conn reg on =
      Partly-bind (λ _ reg'. has_expiry reg' ≡ true) (FewUpgrades config) _ _
        (Partly-or_fault (λ _ reg'. has_expiry reg' ≡ true) state _ reg
          λ tls _.
            Partly-weaken (λ _. Registered reg) _ _
              (report_connection-Registered fl env.unix env.fingerprint tls reg)
              λ u reg' new. new.1)
        λ u reg₁ known.
          Partly-weaken (AtMost (limit reg₁) config.query_response) (FewUpgrades config) _
            (run_entries-AtMost config target config.query_response conn reg₁)
            λ b reg' few e.
              let none_left : upgrades config.query_response ≤ 0 = rw known at (few e) in
              rw on (omega (arith, none_left))

  -- A TCP probe that succeeds has upgraded to TLS once at most: a configuration with `tls` and a
  -- `starttls` entry, or with two such entries, never succeeds.
  pub probe_tcp-upgrades :
      (config : TcpProbe) (target : String) (reg reg' : Registry Num)
      → probe_tcp fl env config target reg ≡ done true reg'
      → one_if config.tls + upgrades config.query_response ≤ 1
  unfolding probe_tcp converse
  probe_tcp-upgrades config target reg reg' h =
      let P = FewUpgrades config in
      Partly-elim P _
        (Partly-register P "probe_failed_due_to_regex" _ reg (
          Partly-skip P _ _ λ dialed reg₁.
            Partly-or_fail P dialed _ reg₁ (λ e. cc)
              λ conn is_dialed.
                Partly-ensure P _ _ reg₁ (λ e. cc)
                  λ in_time. reported-FewUpgrades config target config.tls conn.1 conn.0 reg₁ refl))
        h refl

  -- The connection that was dialed, and the dialogue that started on it.
  pub record Conversed (config : TcpProbe) (target : String) : Type 0 where
    pub before : Registry Num
    pub after : Registry Num
    pub dialed : Dialed C
    pub ran : dial_tcp fl env config target before ≡ done (some dialed) after
    pub in_time : env.set_deadline dialed.0 ≡ true
    pub dialogue : Dialogue fl env config target config.query_response dialed.0

  -- A TCP probe that succeeds has dialed its target and gone through all entries in order: where an
  -- entry has an expression, the lines up to the first that matches were read without an error; what
  -- was expanded from that line was sent, unless it is empty; and where the entry says so, the
  -- handshake succeeded.
  pub probe_tcp-Conversed :
      (config : TcpProbe) (target : String) (reg reg' : Registry Num)
      → probe_tcp fl env config target reg ≡ done true reg'
      → Conversed config target
  unfolding probe_tcp converse
  probe_tcp-Conversed config target reg reg' h =
      Partly-elim P _
        (Partly-register P "probe_failed_due_to_regex" _ reg (
          Partly-step P (dial_tcp fl env config target start) _ λ dialed reg₁ ran.
            Partly-or_fail P dialed (converse fl env config target) reg₁ (λ e. cc)
              λ conn is_dialed. go conn reg₁ (ran ∙ ap (λ o. done o reg₁) is_dialed)))
        h refl
    where
      P : Bool → Registry Num → Type 0
      P b reg₂ = b ≡ true → Conversed config target

      start : Registry Num
      start = record reg { registered = "probe_failed_due_to_regex" ∷ reg.registered }

      go :
          (conn : Dialed C) (reg₁ : Registry Num)
          → dial_tcp fl env config target start ≡ done (some conn) reg₁
          → Partly P (converse fl env config target conn reg₁)
      go conn reg₁ ran =
          Partly-ensure P (env.set_deadline conn.0) _ reg₁ (λ e. cc)
            λ in_time.
              Partly-skip {A = Unit {0}} P (report_dialed fl env config.tls conn.1 reg₁) _ λ u reg₂.
                Partly-weaken (Success fl env config target config.query_response conn.0) P _
                  (run_entries-Dialogue fl env config target config.query_response conn.0 reg₂)
                  λ b reg₃ d e. record {
                    before = start;
                    after = reg₁;
                    dialed = conn;
                    ran = ran;
                    in_time = in_time;
                    dialogue = d e;
                  }
