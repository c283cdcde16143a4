-- ===== src/Json/Tests.antt =====
-- Probes of JSON and GraphQL over a server that answers with fixed bodies, and the theorems there.
use big_blackbox_exporter.Base.{
  ◌≡◌, refl, Bool, true, List, [], ◌∷◌, String, some, none, str_eq, if◌then◌else◌, All,
}
use big_blackbox_exporter.Base.Text.{contains_text, split}
use big_blackbox_exporter.Base.Int.{ℤ, pos}
use big_blackbox_exporter.Float64.Millis.{millis}
use big_blackbox_exporter.Metrics.{
  Registry, new_registry, Outcome, done, panic, value_of, must_register, or_fail, or_fault,
}
use big_blackbox_exporter.Json.{
  number, str, array, JsonEnv, convert, parse_query, report_body, probe_json, run_queries,
  probe_graphql,
}
use big_blackbox_exporter.Json.Conversion.{panic_unless, number_of, convert-eq-panic_unless}
use big_blackbox_exporter.Json.Soundness.{answer, IsAnswered, last_number, probe_graphql-Measured}

-- The data is the body; the path "n" finds a number, "t" a text and "l" a list.
abbrev env : JsonEnv ℤ String
env = record {
  get_body = λ url. if str_eq url "http://server" then some "{}" else none;
  post_body = λ url body. if str_eq body "{\"query\": \"q\"}" then some "{}" else none;
  decode = λ body. some body;
  search = λ path decoded.
      if str_eq path "n"
      then some (number (pos 7))
      else if str_eq path "t"
      then some (str "10")
      else if str_eq path "l"
      then some array
      else none;
}

convert_panics : convert millis array new_registry ≡ panic
unfolding convert or_fault contains_text
convert_panics = refl

convert-eq-panic_unless_example :
    convert millis (str "10") new_registry
    ≡ panic_unless millis (number_of millis (str "10")) new_registry
convert-eq-panic_unless_example = convert-eq-panic_unless millis (str "10") new_registry

registry_of : Outcome ℤ Bool → Registry ℤ
registry_of panic = new_registry
registry_of (done b reg) = reg

json_run : Outcome ℤ Bool
unfolding probe_json report_body convert or_fail or_fault must_register contains_text
json_run = probe_json millis env "server" "n" new_registry

json_succeeds : json_run ≡ done true (registry_of json_run)
unfolding json_run registry_of
json_succeeds = refl

abbrev queries : List String
queries = "q|n" ∷ "no bar" ∷ "q|t" ∷ []

graphql_run : Outcome ℤ Bool
unfolding probe_graphql run_queries parse_query report_body convert or_fail or_fault must_register
    contains_text split
graphql_run = probe_graphql millis env "server" queries new_registry

graphql_succeeds : graphql_run ≡ done true (registry_of graphql_run)
unfolding graphql_run registry_of
graphql_succeeds = refl

probe_graphql-Measured_example :
    All (λ q. IsAnswered millis env (answer millis env "http://server" (parse_query q))) queries
    × ((path : String)
        → value_of "probe_graphql_query" ("http://server" ∷ path ∷ []) (registry_of graphql_run)
          ≡ last_number millis env "http://server" path queries
              (value_of "probe_graphql_query" ("http://server" ∷ path ∷ []) new_registry))
unfolding graphql_run
probe_graphql-Measured_example =
    probe_graphql-Measured millis env "server" queries new_registry (registry_of graphql_run)
      graphql_succeeds
