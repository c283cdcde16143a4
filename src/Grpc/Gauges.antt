-- ===== src/Grpc/Gauges.antt =====
-- The gauges that a health check leaves.
use mathlib.Core.List.{Memᴰ}
use mathlib.Core.List.Memᴰ.{not-nil}
use big_blackbox_exporter.Base.{
  ◌≡◌, refl, Bool, true, false, not, ◌||◌, List, [], ◌∷◌, String, Option, some, none, str_eq,
  eq_refl, if◌then◌else◌, Bool-cases, inl, inr,
}
use big_blackbox_exporter.Base.Int.{pos}
use big_blackbox_exporter.Float64.{Float64}
use big_blackbox_exporter.Tls.{ConnectionState}
use big_blackbox_exporter.Metrics.{Registry, value_of}
use big_blackbox_exporter.Metrics.Inversion.{Partly, Partly-bind, Partly-all, Partly-or_fault}
use big_blackbox_exporter.Grpc.{
  GrpcEnv, Checked, zero_gauge, one_gauge, clear_statuses, set_status, report_peer, report_check,
}

module _ (fl : Float64) {Conn : Type 0} (env : GrpcEnv (fl.Num) Conn) where
  open fl use {Num, of_int}

  abbrev pub response : String → Registry Num → Option Num
  response name reg = value_of "probe_grpc_healthcheck_response" (name ∷ []) reg

  clear_statuses-clears :
      (names : List String) (name : String) (reg : Registry Num)
      → response name reg ≡ some (zero_gauge fl env)
      → Partly
          (λ _ reg'. response name reg' ≡ some (zero_gauge fl env))
          (clear_statuses fl env names reg)
  unfolding clear_statuses
  clear_statuses-clears [] name reg h = h
  clear_statuses-clears (n ∷ names) name reg h =
      clear_statuses-clears names name _
        (elim (Bool-cases (str_eq n name)) [ inl same ↦ rw same refl | inr other ↦ rw other h ])

  clear_statuses_all :
      (names : List String) (name : String) (reg : Registry Num)
      → Memᴰ name names
      → Partly
          (λ _ reg'. response name reg' ≡ some (zero_gauge fl env))
          (clear_statuses fl env names reg)
  unfolding clear_statuses
  clear_statuses_all [] name reg m = absurd (not-nil m)
  clear_statuses_all (n ∷ names) name reg (Memᴰ.head same) =
      clear_statuses-clears names name _ (rw (← same, eq_refl name) refl)
  clear_statuses_all (n ∷ names) name reg (Memᴰ.tail m) = clear_statuses_all names name _ m

  -- The gauges of the statuses after the check: 1 for the serving status alone.
  abbrev pub IsOneHot : (status : String) → Registry Num → Type 0
  IsOneHot status reg =
      (name : String)
      → Memᴰ name env.status_names
      → response name reg
        ≡ some (if str_eq status name then one_gauge fl env else zero_gauge fl env)

  abbrev IsCleared : Registry Num → Type 0
  IsCleared reg =
      (p : (name : String) × Memᴰ name env.status_names)
      → response p.0 reg ≡ some (zero_gauge fl env)

  -- The gauge that says whether TLS was used.
  abbrev pub IsSsl : Option (Option ConnectionState) → Registry Num → Type 0
  IsSsl none reg = Unit
  IsSsl (some none) reg = value_of "probe_grpc_ssl" [] reg ≡ some (zero_gauge fl env)
  IsSsl (some (some tls)) reg = value_of "probe_grpc_ssl" [] reg ≡ some (one_gauge fl env)

  set_status-IsOneHot :
      (status : String) (reg : Registry Num)
      → str_eq status "" ≡ false
      → IsCleared reg
      → Partly (λ _. IsOneHot status) (set_status fl env status reg)
  set_status-IsOneHot status reg given cleared = rw given (λ name m.
      elim (Bool-cases (str_eq status name)) [
        | inl same ↦ rw same refl
        | inr other ↦ rw other (cleared (name, m))
      ])

  report_peer-IsSsl :
      (peer : Option (Option ConnectionState)) (status : String) (reg : Registry Num)
      → IsOneHot status reg
      → Partly (λ _ reg'. IsOneHot status reg' × IsSsl peer reg') (report_peer fl env peer reg)
  report_peer-IsSsl none status reg h = (h, tt)
  report_peer-IsSsl (some none) status reg h = (h, refl)
  report_peer-IsSsl (some (some tls)) status reg h =
      let P : Unit {0} → Registry Num → Type 0 =
        λ _ reg'. IsOneHot status reg' × IsSsl (some (some tls)) reg' in
      Partly-or_fault P _ _ _ λ sum _. Partly-or_fault P _ _ _ λ subject _.
        Partly-or_fault P _ _ _ λ issuer _. Partly-or_fault P _ _ _ λ names _. (h, refl)

  IsSsl-after :
      (peer : Option (Option ConnectionState)) (v : Num) (reg : Registry Num)
      → IsSsl peer reg
      → IsSsl peer (record reg {
        samples = record { name = "probe_grpc_status_code"; labels = []; value = v } ∷ reg.samples;
      })
  IsSsl-after none v reg h = tt
  IsSsl-after (some none) v reg h = h
  IsSsl-after (some (some tls)) v reg h = h

  -- What a check that got a serving status leaves.
  pub record IsReported (checked : Checked) (b : Bool) (reg : Registry Num) : Type 0 where
    pub verdict : b ≡ (if not checked.ok || checked.failed then false else true)
    pub one_hot : IsOneHot checked.serving_status reg
    pub ssl : IsSsl checked.server_peer reg
    pub code : value_of "probe_grpc_status_code" [] reg ≡ some (of_int (pos checked.status_code))

  pub report_check-IsReported :
      (checked : Checked) (reg : Registry Num)
      → str_eq checked.serving_status "" ≡ false
      → Partly (IsReported checked) (report_check fl env checked reg)
  unfolding report_check
  report_check-IsReported checked reg given =
      Partly-bind (λ _. IsCleared) _ (clear_statuses fl env env.status_names _) _
        (Partly-all (λ p _ reg'. response p.0 reg' ≡ some (zero_gauge fl env)) _
          λ (name, m). clear_statuses_all env.status_names name _ m)
        λ u reg₁ cleared.
          Partly-bind (λ _. IsOneHot checked.serving_status) _
            (set_status fl env checked.serving_status reg₁) _
            (set_status-IsOneHot checked.serving_status reg₁ given cleared)
            λ u' reg₂ one_hot.
              Partly-bind
                (λ _ reg'. IsOneHot checked.serving_status reg' × IsSsl checked.server_peer reg') _
                (report_peer fl env checked.server_peer reg₂) _
                (report_peer-IsSsl checked.server_peer checked.serving_status reg₂ one_hot)
                λ u'' reg₃ (hot, ssl). record {
                  verdict = refl;
                  one_hot = hot;
                  ssl = IsSsl-after checked.server_peer _ reg₃ ssl;
                  code = refl;
                }
