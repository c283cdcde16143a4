-- ===== src/Json/Conversion.antt =====
-- Which results the probes for JSON and GraphQL can turn into a gauge.
use big_blackbox_exporter.Base.{◌≡◌, refl, Option, some, none}
use big_blackbox_exporter.Float64.{Float64}
use big_blackbox_exporter.Metrics.{Registry, Outcome, done, panic, or_fault}
use big_blackbox_exporter.Json.{Value, null, boolean, number, str, array, object, convert}

module _ (fl : Float64) where
  open fl use {Num, parse}

  -- The number of a result that is a number or a text; the text counts as what `ParseFloat` gives
  -- for it, with an error or not.
  abbrev pub number_of : Value Num → Option Num
  number_of (number v) = some v
  number_of (str s) = some (parse s).0
  number_of _ = none

  abbrev pub panic_unless : Option Num → Registry Num → Outcome Num (Option Num)
  panic_unless none reg = panic
  panic_unless (some v) reg = done (some v) reg

  -- A result that is a number or a text is converted, and any other makes the probe panic: there is
  -- no result for which the conversion reports a failure.
  pub convert-eq-panic_unless :
      (result : Value Num) (reg : Registry Num)
      → convert fl result reg ≡ panic_unless (number_of result) reg
  unfolding convert or_fault
  convert-eq-panic_unless null reg = refl
  convert-eq-panic_unless (boolean b) reg = refl
  convert-eq-panic_unless (number v) reg = refl
  convert-eq-panic_unless (str s) reg = refl
  convert-eq-panic_unless array reg = refl
  convert-eq-panic_unless object reg = refl
