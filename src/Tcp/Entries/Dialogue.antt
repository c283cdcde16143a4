-- ===== src/Tcp/Entries/Dialogue.antt =====
-- The dialogue of a TCP probe with its target, as a relation between connections.
use big_blackbox_exporter.Base.{
  suc, ◌≡◌, refl, ap, Bool, true, false, List, [], ◌∷◌, ◌++◌, String, Option, some, none, All,
  length, arith, Option-cases, inl, inr,
}
use big_blackbox_exporter.Base.Int.{ℤ}
use big_blackbox_exporter.Float64.{Float64}
use big_blackbox_exporter.Tls.{ConnectionState}
use big_blackbox_exporter.Tls.Report.Registration.{Registered, report_connection-Registered}
use big_blackbox_exporter.Config.{TlsConfig, TcpProbe, QueryResponse}
use big_blackbox_exporter.Tcp.Dial.{ScanLine, TcpEnv, with_server_name}
use big_blackbox_exporter.Tcp.Entries.{
  Hit, match_or, scan_until, scan, expect, say, host_of, upgrade, Next, run_entries,
}
use big_blackbox_exporter.Metrics.{Registry, Probe}
use big_blackbox_exporter.Metrics.Inversion.{
  Partly, Partly-bind, Partly-weaken, Partly-or_fail, Partly-ensure,
}

-- The first of the lines that matches.
pub record First (find : String → Option (List ℤ)) (lines : List ScanLine) (h : Hit) (failed : Bool)
    : Type 0 where
  pub before : List ScanLine
  pub found : ScanLine
  pub after : List ScanLine
  pub split : lines ≡ before ++ (found ∷ after)
  pub others : All (λ l. find l.line ≡ none) before
  pub same_line : h.line ≡ found.line
  pub matched : find found.line ≡ some h.match
  pub no_error : found.failed ≡ failed
  pub count : h.scanned ≡ suc (length before)

later :
    {find : String → Option (List ℤ)} {l : ScanLine} {lines : List ScanLine} {h : Hit}
    {failed : Bool}
    → find l.line ≡ none
    → First find lines h failed
    → First find (l ∷ lines) (record h { scanned = suc h.scanned }) failed
later {l = l} miss f = record {
  before = l ∷ f.before;
  found = f.found;
  after = f.after;
  split = ap (λ more. l ∷ more) f.split;
  others = (miss, f.others);
  same_line = f.same_line;
  matched = f.matched;
  no_error = f.no_error;
  count = ap suc f.count;
}

match_or-First :
    (find : String → Option (List ℤ)) (l : ScanLine) (lines : List ScanLine) (failed : Bool)
    (hit : Option Hit) (o : Option (List ℤ)) (h : Hit)
    → find l.line ≡ o
    → ((h' : Hit) → hit ≡ some h' → First find lines h' failed)
    → (match_or l o (record { failed = failed; hit = hit })).hit ≡ some h
    → First find (l ∷ lines) h (match_or l o (record { failed = failed; hit = hit })).failed
match_or-First find l lines failed none none h miss first e = cc
match_or-First find l lines failed (some h') none h miss first e =
    let same : record h' { scanned = suc h'.scanned } ≡ h = cc in
    rw (← same) (later miss (first h' refl))
match_or-First find l lines failed rest (some m) h hit first e =
    let same : record { scanned = 1; line = l.line; match = m } ≡ h = cc in
    rw (← same) (record {
      before = [];
      found = l;
      after = lines;
      split = refl;
      others = tt;
      same_line = refl;
      matched = hit;
      no_error = refl;
      count = refl;
    })

pub scan_until-First :
    (find : String → Option (List ℤ)) (lines : List ScanLine) (at_end : Bool) (h : Hit)
    → (scan_until find lines at_end).hit ≡ some h
    → First find lines h ((scan_until find lines at_end).failed)
unfolding scan_until
scan_until-First find [] at_end h e = cc
scan_until-First find (l ∷ lines) at_end h e =
    match_or-First find l lines _ _ (find l.line) h refl (scan_until-First find lines at_end) e

module _ (fl : Float64) {C : Type 0} (env : TcpEnv (fl.Num) C) where
  open fl use {Num}

  -- The lines up to the first that matches are read, and what is sent is expanded from it.
  pub record Heard (re : String) (qr : QueryResponse) (conn : C) (send : String) (conn' : C)
      : Type 0 where
    pub hit : Hit
    pub first : First (env.find re) ((env.incoming conn).lines) hit false
    pub expanded : send ≡ env.expand re qr.send hit.line hit.match
    pub consumed : conn' ≡ env.consume hit.scanned conn

  abbrev pub Expected : Option String → QueryResponse → C → String → C → Type 0
  Expected none qr conn send conn' = (send ≡ qr.send) × (conn' ≡ conn)
  Expected (some re) qr conn send conn' = Heard re qr conn send conn'

  abbrev pub Upgraded : TcpProbe → (target : String) → (start_tls : Bool) → C → C → Type 0
  Upgraded config target false conn conn' = conn' ≡ conn
  Upgraded config target true conn conn' =
      (tls : TlsConfig) × (state : ConnectionState) × (env.new_tls_config config.tls_config
        ≡ some tls)
      × (env.handshake (with_server_name (host_of (env.split_host_port target)) tls) conn
          ≡ some (conn', state))

  -- The entries are gone through in order, each from the connection that the one before left.
  pub data Dialogue (config : TcpProbe) (target : String) : List QueryResponse → C → Type 0 where
    finished : {conn : C} → Dialogue config target [] conn
    entry :
        {qr : QueryResponse} {entries : List QueryResponse} {conn : C}
        → (send : String) (heard said conn' : C) → Expected qr.expect.regexp qr conn send heard
        → say fl env send heard ≡ some said
        → Upgraded config target qr.start_tls said conn'
        → Dialogue config target entries conn'
        → Dialogue config target (qr ∷ entries) conn

  -- Only an upgrade registers anything, the gauges of its certificates.
  abbrev pub Registers : (start_tls : Bool) → Registry Num → Registry Num → Type 0
  Registers false reg reg' = reg'.registered ≡ reg.registered
  Registers true reg reg' = Registered reg reg'

  pub Partly-upgrade :
      (P : Bool → Registry Num → Type 0) (config : TcpProbe) (target : String) (start : Bool)
      (qr : QueryResponse) (conn : C) (next : C → Probe Num Bool) (reg : Registry Num)
      → qr.start_tls ≡ start
      → ((reg' : Registry Num) → P false reg')
      → ((conn' : C) (reg' : Registry Num)
          → Upgraded config target start conn conn'
          → Registers start reg reg'
          → Partly P (next conn' reg'))
      → Partly P (upgrade fl env config target qr conn next reg)
  Partly-upgrade P config target false qr conn next reg e fails step =
      rw e (step conn reg refl refl)
  Partly-upgrade P config target true qr conn next reg e fails step = rw e (
      Partly-or_fail P (env.new_tls_config config.tls_config) _ reg (fails reg) λ tls has_config.
        Partly-or_fail P _ _ reg (fails reg) λ upgraded shaken.
          Partly-bind (λ _. Registers true reg) P _ _
            (report_connection-Registered fl env.unix env.fingerprint upgraded.1 reg)
            λ u reg' new. step upgraded.0 reg' (tls, upgraded.1, has_config, shaken) new)

  pub Partly-expect :
      (P : Bool → Registry Num → Type 0) (o : Option String) (qr : QueryResponse) (conn : C)
      (next : Next fl env) (reg : Registry Num)
      → ((reg' : Registry Num) → P false reg')
      → ((send : String) (conn' : C) (reg' : Registry Num)
          → Expected o qr conn send conn'
          → reg'.registered ≡ reg.registered
          → Partly P (next send conn' reg'))
      → Partly P (expect fl env o qr conn next reg)
  Partly-expect P none qr conn next reg fails step = step qr.send conn reg (refl, refl) refl
  Partly-expect P (some re) qr conn next reg fails step =
      Partly-ensure P _ _ reg (fails reg) λ read.
        elim (Option-cases ((scan (env.find re) (env.incoming conn)).hit)) [
          | inl miss ↦ rw miss (fails _)
          | inr (h, hit) ↦ rw hit (
              step _ _ _
                (record {
                  hit = h;
                  first = first h hit (ground arith);
                  expanded = refl;
                  consumed = refl;
                })
                refl)
        ]
    where
      first :
          (h : Hit)
          → (scan (env.find re) (env.incoming conn)).hit ≡ some h
          → (scan (env.find re) (env.incoming conn)).failed ≡ false
          → First (env.find re) ((env.incoming conn).lines) h false
      first h hit read = rw (← read) (scan_until-First (env.find re) _ _ h hit)

  abbrev pub Success : TcpProbe → String → List QueryResponse → C → Bool → Registry Num → Type 0
  Success config target entries conn b reg = b ≡ true → Dialogue config target entries conn

  pub run_entries-Dialogue :
      (config : TcpProbe) (target : String) (entries : List QueryResponse) (conn : C)
      (reg : Registry Num)
      → Partly
          (Success config target entries conn)
          (run_entries fl env config target entries conn reg)
  unfolding run_entries
  run_entries-Dialogue config target [] conn reg = λ e. finished
  run_entries-Dialogue config target (qr ∷ entries) conn reg =
      let P = Success config target (qr ∷ entries) conn in
      Partly-expect P qr.expect.regexp qr conn _ reg (λ reg' e. cc)
        λ send heard reg₁ h same.
          Partly-or_fail P (say fl env send heard) _ reg₁ (λ e. cc)
            λ said s.
              Partly-upgrade P config target qr.start_tls qr said _ reg₁ refl (λ reg' e. cc)
                λ conn' reg₂ u r.
                  Partly-weaken (Success config target entries conn') P _
                    (run_entries-Dialogue config target entries conn' reg₂)
                    λ b reg' d e. entry send heard said conn' h s u (d e)
