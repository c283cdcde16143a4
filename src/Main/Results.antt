-- ===== src/Main/Results.antt =====
-- The result that a request of /probe adds to the history.
use big_blackbox_exporter.Base.{
  ◌≤◌, ◌≡◌, refl, Bool, List, [], ◌∷◌, String, Option, some, none, str_eq, arith, length,
  if◌then◌else◌, Option-cases, Bool-cases, inl, inr,
}
use big_blackbox_exporter.Float64.{Float64}
use big_blackbox_exporter.Config.{Module}
use big_blackbox_exporter.History.Refinement.{Entry, add_all}
use big_blackbox_exporter.Handler.{
  ProbeFn, probers, Values, apply_tcp_hostname, debug_output, scrape_log, probe_with_gauges, get,
  Request, State, Served, served, panicked, Server, apply_http_hostname, finish, with_module,
}
use big_blackbox_exporter.Handler.Timeout.{get_timeout}
use big_blackbox_exporter.Metrics.{new_registry, Outcome, done, panic}

-- The history gets these results, and none where the probe panics.
abbrev pub Recorded : {V : Type 0} → List Entry → State → Served V → Type 0
Recorded es st panicked = es ≡ []
Recorded es st (served response st') = st'.history ≡ add_all es st.history

module _ (fl : Float64) (s : Server (fl.Num)) (r : Request) (values : Values) where
  open fl use {Num}

  -- The result of the probe of a module for the request: none where the request is refused, and
  -- none where the probe panics.
  abbrev ended :
      (module_name : String) → (logs : Bool → String) → Module → Outcome Num Bool → List Entry
  ended module_name logs m panic = []
  ended module_name logs m (done success reg) =
      record {
        module_name = module_name;
        target = get "target" values;
        debug_output = debug_output s m (logs success) reg;
        success = success;
      }
      ∷ []

  abbrev with_host : (module_name : String) → Num → ProbeFn → Option Module → List Entry
  with_host module_name timeout p none = []
  with_host module_name timeout p (some applied) =
      let m = apply_tcp_hostname (get "hostname" values) applied in
      ended module_name
        (λ success.
          (scrape_log fl s p timeout (get "target" values) values module_name m success).buffer)
        m (probe_with_gauges fl s p timeout (get "target" values) values m new_registry)

  abbrev by_prober : (module_name : String) → Num → Module → Option ProbeFn → List Entry
  by_prober module_name timeout m none = []
  by_prober module_name timeout m (some p) =
      with_host module_name timeout p (apply_http_hostname (get "hostname" values) m)

  abbrev within : (module_name : String) → Module → Option Num → List Entry
  within module_name m none = []
  within module_name m (some timeout) =
      if str_eq (get "target" values) ""
      then []
      else by_prober module_name timeout m (probers m.prober)

  abbrev pub results_of_module : (module_name : String) → Option Module → List Entry
  results_of_module module_name none = []
  results_of_module module_name (some m) =
      within module_name m (get_timeout fl r.scrape_timeout m.timeout s.timeout_offset)

  finish-Recorded :
      (module_name : String) (logs : Bool → String) (m : Module) (st : State) (o : Outcome Num Bool)
      → Recorded
          (ended module_name logs m o)
          st
          (finish fl s r module_name (get "target" values) logs m st o)
  unfolding add_all
  finish-Recorded module_name logs m st panic = refl
  finish-Recorded module_name logs m st (done success reg) = refl

  pub with_module-Recorded :
      (module_name : String) (st : State) (m : Option Module)
      → Recorded (results_of_module module_name m) st (with_module fl s r values module_name st m)
  unfolding add_all
  with_module-Recorded module_name st none = refl
  with_module-Recorded module_name st (some m) =
      elim (Option-cases (get_timeout fl r.scrape_timeout m.timeout s.timeout_offset)) [
        | inl bad ↦ rw bad refl
        | inr (timeout, timed) ↦ rw timed (elim (Bool-cases (str_eq (get "target" values) "")) [
          | inl missing ↦ rw missing refl
          | inr target ↦ rw target (elim (Option-cases (probers m.prober)) [
            | inl unknown ↦ rw unknown refl
            | inr (p, known) ↦
                rw known (elim (Option-cases (apply_http_hostname (get "hostname" values) m)) [
                  | inl conflict ↦ rw conflict refl
                  | inr (applied, hosted) ↦ rw hosted (finish-Recorded module_name _ _ st _)
                ])
          ])
        ])
      ]

  ended-length :
      (module_name : String) (logs : Bool → String) (m : Module) (o : Outcome Num Bool)
      → length (ended module_name logs m o) ≤ 1
  ended-length module_name logs m panic = omega arith
  ended-length module_name logs m (done success reg) = omega arith

  with_host-length :
      (module_name : String) (timeout : Num) (p : ProbeFn) (o : Option Module)
      → length (with_host module_name timeout p o) ≤ 1
  with_host-length module_name timeout p none = omega arith
  with_host-length module_name timeout p (some applied) = ended-length module_name _ _ _

  by_prober-length :
      (module_name : String) (timeout : Num) (m : Module) (o : Option ProbeFn)
      → length (by_prober module_name timeout m o) ≤ 1
  by_prober-length module_name timeout m none = omega arith
  by_prober-length module_name timeout m (some p) = with_host-length module_name timeout p _

  within-length :
      (module_name : String) (m : Module) (o : Option Num) → length (within module_name m o) ≤ 1
  within-length module_name m none = omega arith
  within-length module_name m (some timeout) = elim (Bool-cases (str_eq (get "target" values) "")) [
    | inl missing ↦ rw missing (omega arith)
    | inr target ↦ rw target (by_prober-length module_name timeout m _)
  ]

  pub results_of_module-length :
      (module_name : String) (o : Option Module) → length (results_of_module module_name o) ≤ 1
  results_of_module-length module_name none = omega arith
  results_of_module-length module_name (some m) = within-length module_name m _
