-- ===== src/Handler/Gauges.antt =====
-- The gauges that `Handler` itself registers and sets around a probe.
use big_blackbox_exporter.Base.{
  ◌≡◌, ◌≢◌, refl, Bool, true, false, [], ◌∷◌, String, some, none, if◌then◌else◌,
}
use big_blackbox_exporter.Base.Int.{pos}
use big_blackbox_exporter.Float64.{Float64}
use big_blackbox_exporter.Config.{Module}
use big_blackbox_exporter.Metrics.{
  Registry, new_registry, Outcome, done, panic, value_of, or_zero, must_register, and_then,
}
use big_blackbox_exporter.Metrics.Inversion.{Partly, Partly-bind}
use big_blackbox_exporter.Handler.{ProbeFn, Values, Server, probe_with_gauges}

module _ (fl : Float64) (s : Server (fl.Num)) where
  open fl use {Num, of_int}

  -- The registry that the probe is given.
  abbrev pub registry : Registry Num
  registry = record { registered = "probe_duration_seconds" ∷ "probe_success" ∷ []; samples = [] }

  -- The gauges of the handler show the verdict and the duration.
  pub record IsGauged (success : Bool) (reg : Registry Num) : Type 0 where
    pub verdict :
        or_zero (of_int (pos 0)) (value_of "probe_success" [] reg)
        ≡ (if success then of_int (pos 1) else of_int (pos 0))
    pub not_set : success ≡ false → value_of "probe_success" [] reg ≡ none
    pub duration : value_of "probe_duration_seconds" [] reg ≡ some s.duration

  module _ (values : Values) where
    abbrev pub Leaves : Outcome Num Bool → Type 0
    Leaves o = Partly (λ _ reg. value_of "probe_success" [] reg ≡ none) o

    pub probe_with_gauges-IsGauged :
        (p : ProbeFn) (timeout : Num) (target : String) (m : Module)
        → Leaves (s.run p timeout target values m registry)
        → Partly IsGauged (probe_with_gauges fl s p timeout target values m new_registry)
    unfolding probe_with_gauges must_register
    probe_with_gauges-IsGauged p timeout target m leaves =
        Partly-bind (λ _ reg. value_of "probe_success" [] reg ≡ none) IsGauged
          (s.run p timeout target values m registry) _ leaves
          (elim [
            | true ↦ λ reg unset. record { verdict = refl; not_set = λ e. cc; duration = refl }
            | false ↦ λ reg unset. record {
              verdict = rw unset refl;
              not_set = λ e. unset;
              duration = refl;
            }
          ])

    crashed_after :
        (o : Outcome Num Bool) (k : Bool → Registry Num → Outcome Num Bool)
        → ((b : Bool) (reg : Registry Num) → k b reg ≢ panic)
        → and_then o k ≡ panic
        → o ≡ panic
    crashed_after (done b reg) k ends h = absurd (ends b reg h)
    crashed_after panic k ends h = refl

    pub probe_with_gauges-eq-panic :
        (p : ProbeFn) (timeout : Num) (target : String) (m : Module)
        → probe_with_gauges fl s p timeout target values m new_registry ≡ panic
        → s.run p timeout target values m registry ≡ panic
    unfolding probe_with_gauges must_register
    probe_with_gauges-eq-panic p timeout target m h =
        crashed_after (s.run p timeout target values m registry) _
          (elim [ true ↦ λ reg e. cc | false ↦ λ reg e. cc ]) h
