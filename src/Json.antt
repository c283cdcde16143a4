-- ===== src/Json.antt =====
-- prober/json.go and prober/graphql.go: `ProbeJSON` and `ProbeGraphQL`.
--
-- The HTTP client, encoding/json and jmespath are parameters: `none` is an error of them. A value
-- is what jmespath makes of decoded JSON, and `type_name` is the name that package reflect gives
-- for its type. A failed type assertion is a panic. Logging and closing bodies are left out.
pub mod Conversion
pub mod Soundness
mod Tests
use Prim.Native.String.{◌++◌ as ◌<>◌}
use text.Mathlib.Text.{starts_with}
use big_blackbox_exporter.Base.{
  ℕ, Bool, true, false, not, ◌&&◌, ◌||◌, List, [], ◌∷◌, String, Option, some, none, if◌then◌else◌,
}
use big_blackbox_exporter.Base.Text.{with_scheme, contains_text, split}
use big_blackbox_exporter.Base.Dict.{lookup}
use big_blackbox_exporter.Float64.{Float64}
use big_blackbox_exporter.Metrics.{
  Probe, ◌>>=◌, ◌>>◌, return, fault, must_register, set_gauge, or_fail, or_fault,
}

-- The dynamic types of a result, with the contents that the probes look at.
pub data Value (V : Type 0) : Type 0 where
  null : Value V
  boolean : Bool → Value V
  number : V → Value V
  str : String → Value V
  array : Value V
  object : Value V

-- `reflect.TypeOf(result).String()`, which dereferences nil for a nil result.
abbrev pub type_name : {V : Type 0} → Value V → Option String
type_name null = none
type_name (boolean _) = some "bool"
type_name (number _) = some "float64"
type_name (str _) = some "string"
type_name array = some "[]interface {}"
type_name object = some "map[string]interface {}"

-- `result.(float64)` and `result.(string)`
abbrev pub as_number : {V : Type 0} → Value V → Option V
as_number (number v) = some v
as_number _ = none

abbrev pub as_text : {V : Type 0} → Value V → Option String
as_text (str s) = some s
as_text _ = none

-- What a probe gets from outside; `decode` is `json.Unmarshal`.
pub record JsonEnv (V Data : Type 0) : Type 0 where
  -- `hc.Get` and `io.ReadAll`
  pub get_body : String → Option String
  -- `hc.Post` of a URL and a body, and `io.ReadAll`
  pub post_body : String → String → Option String
  pub decode : String → Option Data
  -- `jmespath.Search`
  pub search : String → Data → Option (Value V)

-- A query parameter is the text before the bar and the one after it.
abbrev pub pair_of : List String → Option (String × String)
pair_of (query ∷ path ∷ []) = some (query, path)
pair_of _ = none

unfoldable pub parse_query : String → Option (String × String)
unfolding split
parse_query q = pair_of (split b'|' q)

abbrev pub request_body : String → String
request_body query = "{\"query\": \"" <> query <> "\"}"

module _ (fl : Float64) where
  open fl use {Num, parse}

  -- The value of the gauge; the error of `ParseFloat` is ignored.
  unfoldable pub convert : Value Num → Probe Num (Option Num)
  unfolding contains_text
  convert result = or_fault (type_name result) λ name.
      if contains_text name "float" || contains_text name "int"
      then or_fault (as_number result) (λ v. return (some v))
      else if contains_text name "string"
      then or_fault (as_text result) (λ s. return (some (parse s).0))
      else or_fault (as_text result) (λ _. return none)

  module _ {Data : Type 0} (env : JsonEnv Num Data) where
    -- From the body to the gauge.
    unfoldable pub report_body :
        (gauge target path : String) → Option String → (continue : Probe Num Bool) → Probe Num Bool
    report_body gauge target path body continue = or_fail body λ content.
        or_fail (env.decode content) λ decoded. or_fail (env.search path decoded) λ result. do
          converted ← convert result
          or_fail converted λ value. do set_gauge gauge (target ∷ path ∷ []) value; continue

    unfoldable pub probe_json : (target : String) → (path : String) → Probe Num Bool
    probe_json target path = do
      must_register "probe_json_jmespath"
      report_body "probe_json_jmespath" (with_scheme target) path
          (env.get_body (with_scheme target)) (return true)

    -- One query; one in another form is skipped.
    abbrev pub run_query :
        (target : String) → Option (String × String) → Probe Num Bool → Probe Num Bool
    run_query target none continue = continue
    run_query target (some (query, path)) continue =
        report_body "probe_graphql_query" target path (env.post_body target (request_body query))
          continue

    unfoldable pub run_queries : (target : String) → List String → Probe Num Bool
    run_queries target [] = return true
    run_queries target (q ∷ qs) = run_query target (parse_query q) (run_queries target qs)

    unfoldable pub probe_graphql : (target : String) → (queries : List String) → Probe Num Bool
    probe_graphql target queries = do
      must_register "probe_graphql_query"
      run_queries (with_scheme target) queries
