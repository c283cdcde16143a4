-- ===== src/Handler/Requests.antt =====
-- What a request of /probe does to the exporter's state, and how it is answered.
use big_blackbox_exporter.Base.{
  ◌≡◌, refl, Bool, true, false, String, Option, some, none, str_eq, Bool-cases, Option-cases, inl,
  inr,
}
use big_blackbox_exporter.Base.Dict.{lookup}
use big_blackbox_exporter.Float64.{Float64}
use big_blackbox_exporter.Config.{Module}
use big_blackbox_exporter.History.{add}
use big_blackbox_exporter.Metrics.{Registry, new_registry, Outcome, done, panic}
use big_blackbox_exporter.Metrics.Inversion.{Partly-elim}
use big_blackbox_exporter.Handler.{
  ProbeFn, probers, Values, get, Request, State, http_error, debug_text, metrics, Served, served,
  panicked, Server, params_or_query, or_http_2xx, count_unknown, apply_http_hostname,
  apply_tcp_hostname, scrape_log, debug_output, probe_with_gauges, finish, with_module, handler,
}
use big_blackbox_exporter.Handler.Timeout.{get_timeout}
use big_blackbox_exporter.Handler.Gauges.{
  registry, IsGauged, Leaves, probe_with_gauges-IsGauged, probe_with_gauges-eq-panic,
}

module _ (fl : Float64) (s : Server (fl.Num)) where
  open fl use {Num}

  module _ (values : Values) where
    -- The text that the scrape logger has buffered for the probe of a module.
    abbrev pub logs :
        (module_name : String)
        → ProbeFn
        → (timeout : Num) → (applied : Module) → (success : Bool) → String
    logs module_name p timeout applied success =
        (scrape_log fl s p timeout (get "target" values) values module_name
          (apply_tcp_hostname (get "hostname" values) applied) success).buffer

    -- A probe has run for the request: the module, the prober and the timeout are those that the
    -- request and the configuration give, its verdict is in
    -- the history and in the registry, and the debug output shows its log.
    pub record IsProbed (scrape_timeout module_name output : String) (reg : Registry Num)
        (st st' : State) : Type 0 where
      pub configured : Module
      pub found : lookup module_name s.config.modules ≡ some configured
      pub prober : ProbeFn
      pub known : probers configured.prober ≡ some prober
      pub timeout : Num
      pub timed : get_timeout fl scrape_timeout configured.timeout s.timeout_offset ≡ some timeout
      pub has_target : str_eq (get "target" values) "" ≡ false
      pub applied : Module
      pub hosted : apply_http_hostname (get "hostname" values) configured ≡ some applied
      pub success : Bool
      pub ran :
          probe_with_gauges fl s prober timeout
            (get "target" values)
            values
            (apply_tcp_hostname (get "hostname" values) applied)
            new_registry
          ≡ done success reg
      pub gauged : IsGauged fl s success reg
      pub described :
          output
          ≡ debug_output s
              (apply_tcp_hostname (get "hostname" values) applied)
              (logs module_name prober timeout applied success)
              reg
      pub recorded :
          st'
          ≡ record st { history = add module_name (get "target" values) output success st.history }

    -- The probe of the module has panicked, with the inputs that the request and the configuration
    -- give.
    pub record Crashed (scrape_timeout module_name : String) : Type 0 where
      pub configured : Module
      pub found : lookup module_name s.config.modules ≡ some configured
      pub prober : ProbeFn
      pub known : probers configured.prober ≡ some prober
      pub timeout : Num
      pub timed : get_timeout fl scrape_timeout configured.timeout s.timeout_offset ≡ some timeout
      pub applied : Module
      pub hosted : apply_http_hostname (get "hostname" values) configured ≡ some applied
      pub crashed :
          s.run prober timeout
            (get "target" values)
            values
            (apply_tcp_hostname (get "hostname" values) applied)
            (registry fl s)
          ≡ panic

    -- An unknown module is counted, and nothing else changes the state.
    pub record IsRefused (module_name : String) (st st' : State) : Type 0 where
      pub same_history : st'.history ≡ st.history
      pub counted : st'.module_unknown ≡ (elim (lookup module_name s.config.modules) [
        | none ↦ count_unknown st.module_unknown
        | some _ ↦ st.module_unknown
      ])

    abbrev pub Serves :
        (scrape_timeout module_name debug : String) (st : State) → Served Num → Type 0
    Serves scrape_timeout module_name debug st panicked = Crashed scrape_timeout module_name
    Serves scrape_timeout module_name debug st (served (http_error text code) st') =
        IsRefused module_name st st'
    Serves scrape_timeout module_name debug st (served (debug_text output) st') =
        (str_eq debug "true" ≡ true)
        × (reg : Registry Num) × IsProbed scrape_timeout module_name output reg st st'
    Serves scrape_timeout module_name debug st (served (metrics reg) st') =
        (str_eq debug "true" ≡ false)
        × (output : String) × IsProbed scrape_timeout module_name output reg st st'

    module _ (r : Request)
        (leaves : (p : ProbeFn) (timeout : Num) (m : Module)
          → Leaves fl s values
              (s.run p timeout (get "target" values) values m (registry fl s))) where
      abbrev Answers : String → State → Served Num → Type 0
      Answers module_name st o = Serves r.scrape_timeout module_name (get "debug" r.query) st o

      finish-Serves :
          (module_name : String) (configured applied : Module) (p : ProbeFn) (timeout : Num)
          (st : State)
          → lookup module_name s.config.modules ≡ some configured
          → probers configured.prober ≡ some p
          → get_timeout fl r.scrape_timeout configured.timeout s.timeout_offset ≡ some timeout
          → str_eq (get "target" values) "" ≡ false
          → apply_http_hostname (get "hostname" values) configured ≡ some applied
          → (o : Outcome Num Bool)
          → probe_with_gauges fl s p timeout
              (get "target" values)
              values
              (apply_tcp_hostname (get "hostname" values) applied)
              new_registry
            ≡ o
          → Answers module_name st (
              finish fl s r module_name
                (get "target" values)
                (logs module_name p timeout applied)
                (apply_tcp_hostname (get "hostname" values) applied)
                st
                o)
      finish-Serves module_name configured applied p timeout st found known timed target hosted
            panic e =
          record {
            configured = configured;
            found = found;
            prober = p;
            known = known;
            timeout = timeout;
            timed = timed;
            applied = applied;
            hosted = hosted;
            crashed =
                probe_with_gauges-eq-panic fl s values p timeout (get "target" values)
                  (apply_tcp_hostname (get "hostname" values) applied) e;
          }
      finish-Serves module_name configured applied p timeout st found known timed target hosted
            (done success reg) e =
          let gauged : IsGauged fl s success reg =
            Partly-elim (IsGauged fl s) _
              (probe_with_gauges-IsGauged fl s values p timeout (get "target" values) _
                (leaves p timeout _))
              e in
          let output =
            debug_output s (apply_tcp_hostname (get "hostname" values) applied)
              (logs module_name p timeout applied success) reg in
          let probed : IsProbed r.scrape_timeout module_name output reg st (record st {
            history = add module_name (get "target" values) output success st.history;
          }) =
            record {
              configured = configured;
              found = found;
              prober = p;
              known = known;
              timeout = timeout;
              timed = timed;
              has_target = target;
              applied = applied;
              hosted = hosted;
              success = success;
              ran = e;
              gauged = gauged;
              described = refl;
              recorded = refl;
            } in
          elim (Bool-cases (str_eq (get "debug" r.query) "true")) [
            | inl debug ↦ rw debug (debug, reg, probed)
            | inr quiet ↦ rw quiet (quiet, output, probed)
          ]

      refused :
          (module_name : String) (m : Module) (st : State)
          → lookup module_name s.config.modules ≡ some m
          → IsRefused module_name st st
      refused module_name m st found = record { same_history = refl; counted = rw found refl }

      with_module-Serves :
          (module_name : String) (st : State) (m : Option Module)
          → lookup module_name s.config.modules ≡ m
          → Answers module_name st (with_module fl s r values module_name st m)
      with_module-Serves module_name st none missing = record {
        same_history = refl;
        counted = rw missing refl;
      }
      with_module-Serves module_name st (some m) found =
          elim (Option-cases (get_timeout fl r.scrape_timeout m.timeout s.timeout_offset)) [
            | inl bad ↦ rw bad (refused module_name m st found)
            | inr (timeout, timed) ↦ rw timed (elim (Bool-cases (str_eq (get "target" values) "")) [
              | inl missing ↦ rw missing (refused module_name m st found)
              | inr target ↦ rw target (elim (Option-cases (probers m.prober)) [
                | inl unknown ↦ rw unknown (refused module_name m st found)
                | inr (p, known) ↦
                    rw known (elim (Option-cases (apply_http_hostname (get "hostname" values) m)) [
                      | inl conflict ↦ rw conflict (refused module_name m st found)
                      | inr (applied, hosted) ↦ rw hosted (
                          finish-Serves module_name m applied p timeout st found known timed target
                            hosted _ refl)
                    ])
              ])
            ])
          ]

-- Every request of /probe, where no probe sets the gauge `probe_success` of the handler. An error
-- response leaves the history as it is, and counts the module exactly where it is unknown. Any
-- other response, the metrics or with `debug=true` their text, comes after a run of the module's
-- probe with the timeout of `getTimeout` and the `hostname` applied: the run's verdict is in the
-- gauge `probe_success` and is added to the history, and nothing else of the state changes. A
-- request ends in a panic only where the probe of the module does.
pub handler-Serves :
    (fl : Float64) (s : Server (fl.Num)) (r : Request) (params : Option Values) (st : State)
    → ((p : ProbeFn) (timeout : fl.Num) (m : Module)
        → Leaves fl s (params_or_query params r) (
            s.run p timeout
              (get "target" (params_or_query params r))
              (params_or_query params r)
              m
              (registry fl s)))
    → Serves fl s
        (params_or_query params r)
        r.scrape_timeout
        (or_http_2xx (get "module" (params_or_query params r)))
        (get "debug" r.query)
        st
        (handler fl s r params st)
unfolding handler
handler-Serves fl s r params st leaves =
    with_module-Serves fl s (params_or_query params r) r leaves _ st _ refl
