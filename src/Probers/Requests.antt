-- ===== src/Probers/Requests.antt =====
-- Requests of /probe that the probes of the map `Probers` answer.
use big_blackbox_exporter.Base.{
  ◌≡◌, ◌≢◌, refl, Bool, true, [], List, String, Option, some, if◌then◌else◌,
}
use big_blackbox_exporter.Base.Dict.{lookup}
use big_blackbox_exporter.Base.Int.{pos}
use big_blackbox_exporter.Float64.{Float64}
use big_blackbox_exporter.Config.{Module}
use big_blackbox_exporter.Metrics.{
  Registry, Outcome, Probe, done, return, value_of, set_gauge, ◌>>◌,
}
use big_blackbox_exporter.Handler.{
  ProbeFn, probers, Values, get, Request, State, Server, params_or_query, or_http_2xx,
  apply_http_hostname, apply_tcp_hostname, handler,
}
use big_blackbox_exporter.Handler.Timeout.{get_timeout}
use big_blackbox_exporter.Handler.Requests.{Serves, handler-Serves}
use big_blackbox_exporter.Handler.Gauges.{registry}
use big_blackbox_exporter.Probers.{Outside, run_probe, with_probers}
use big_blackbox_exporter.Probers.Unset.{run_probe-Unset}
use big_blackbox_exporter.Probers.Established.{Established}

module _ (fl : Float64) {TcpConn GrpcConn EthClient Abi BtcClient Data : Type 0}
    (env : fl.Num → Outside (fl.Num) TcpConn GrpcConn EthClient Abi BtcClient Data)
    (s : Server (fl.Num)) where
  open fl use {Num, of_int}

  -- Every request of /probe to the exporter with its own probes. An error response leaves the
  -- history as it is, and counts the module exactly where it is unknown. Any other response, the
  -- metrics or with `debug=true` their text, comes after a run of the module's probe with the
  -- timeout of `getTimeout` and the `hostname` applied: the run's verdict is in the gauge
  -- `probe_success` and is added to the history, and nothing else of the state changes. A request
  -- ends in a panic only where the probe of the module does.
  pub probe-Serves :
      (r : Request) (params : Option Values) (st : State)
      → Serves fl
          (with_probers fl env s)
          (params_or_query params r)
          r.scrape_timeout
          (or_http_2xx (get "module" (params_or_query params r)))
          (get "debug" r.query)
          st
          (handler fl (with_probers fl env s) r params st)
  probe-Serves r params st =
      handler-Serves fl (with_probers fl env s) r params st
        λ p timeout m. run_probe-Unset fl env p timeout _ _ m _ refl

  -- The module of a request is configured with a prober that is known, and the run of the probe with
  -- these succeeds, leaves the registry `left` and has got what it promises. The gauges `reg` are
  -- those of `left` but for the handler's own two.
  pub record IsVerified (values : Values) (scrape_timeout module_name : String) (reg : Registry Num)
      : Type 0 where
    pub configured : Module
    pub found : lookup module_name s.config.modules ≡ some configured
    pub prober : ProbeFn
    pub known : probers configured.prober ≡ some prober
    pub timeout : Num
    pub timed : get_timeout fl scrape_timeout configured.timeout s.timeout_offset ≡ some timeout
    pub applied : Module
    pub hosted : apply_http_hostname (get "hostname" values) configured ≡ some applied
    pub left : Registry Num
    pub ran :
        run_probe fl env prober timeout
          (get "target" values)
          values
          (apply_tcp_hostname (get "hostname" values) applied)
          (registry fl (with_probers fl env s))
        ≡ done true left
    pub established :
        Established fl env prober timeout
          (get "target" values)
          values
          (apply_tcp_hostname (get "hostname" values) applied)
          (registry fl (with_probers fl env s))
          left
    pub shown :
        (name : String) (labels : List String)
        → name ≢ "probe_success"
        → name ≢ "probe_duration_seconds"
        → value_of name labels reg ≡ value_of name labels left

  -- What the handler does with the registry that a probe left.
  abbrev set_verdict : Bool → Probe Num Bool
  set_verdict success = do
    set_gauge "probe_duration_seconds" [] s.duration
    if success then set_gauge "probe_success" [] (of_int (pos 1)) else return tt
    return success

  abbrev Shown : (reg left : Registry Num) → Type 0
  Shown reg left =
      (name : String) (labels : List String)
      → name ≢ "probe_success"
      → name ≢ "probe_duration_seconds"
      → value_of name labels reg ≡ value_of name labels left

  -- The registry that the probe left has the gauges besides the handler's.
  abbrev LeftBy : Outcome Num Bool → Bool → Registry Num → Type 0
  LeftBy o success reg = (left : Registry Num) × (o ≡ done success left) × Shown reg left
