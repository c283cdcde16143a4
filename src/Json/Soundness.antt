-- ===== src/Json/Soundness.antt =====
-- What the probes for JSON and GraphQL have measured when they succeed.
use big_blackbox_exporter.Base.{
  ◌≡◌, ◌≢◌, refl, ap, ◌∙◌, Bool, true, false, List, [], ◌∷◌, String, Option, some, none, str_eq,
  if◌then◌else◌, arith, Option-cases, inl, inr, All, eq_refl,
}
use big_blackbox_exporter.Float64.{Float64}
use big_blackbox_exporter.Metrics.{Registry, done, Probe, value_of, ◌>>=◌, return}
use big_blackbox_exporter.Metrics.Inversion.{
  Partly, Partly-elim, Partly-or_fail, Partly-register, Partly-weaken,
}
use big_blackbox_exporter.Metrics.Gauges.{value_of-set}
use big_blackbox_exporter.Json.{
  Value, JsonEnv, run_query, parse_query, request_body, convert, report_body, probe_json,
  run_queries, probe_graphql,
}
use big_blackbox_exporter.Base.Text.{with_scheme}
use big_blackbox_exporter.Json.Conversion.{number_of, convert-eq-panic_unless}

module _ (fl : Float64) {Data : Type 0} (env : JsonEnv (fl.Num) Data) where
  open fl use {Num}

  abbrev pub found_number : Option (Value Num) → Option Num
  found_number none = none
  found_number (some result) = number_of fl result

  abbrev pub number_in : String → Option Data → Option Num
  number_in path none = none
  number_in path (some decoded) = found_number (env.search path decoded)

  -- The number that a body gives under a path, if it can be read, decoded and searched.
  abbrev pub measure : (path : String) → Option String → Option Num
  measure path none = none
  measure path (some content) = number_in path (env.decode content)

  Partly-convert :
      (P : Bool → Registry Num → Type 0) (result : Value Num) (k : Option Num → Probe Num Bool)
      (reg : Registry Num)
      → ((v : Num) → number_of fl result ≡ some v → Partly P (k (some v) reg))
      → Partly P ((convert fl result >>= k) reg)
  Partly-convert P result k reg step = elim (Option-cases (number_of fl result)) [
    | inl other ↦ rw (convert-eq-panic_unless fl result reg, other) tt
    | inr (v, e) ↦ rw (convert-eq-panic_unless fl result reg, e) (step v e)
  ]

  -- The registry in which a gauge was set.
  abbrev gauge_set : (gauge : String) → List String → Num → Registry Num → Registry Num
  gauge_set gauge labels v reg = record reg {
    samples = record { name = gauge; labels = labels; value = v } ∷ reg.samples;
  }

  -- The rule for one body: what follows runs with the gauge set to the body's number.
  pub Partly-report_body :
      (P : Bool → Registry Num → Type 0) (gauge target path : String) (body : Option String)
      (continue : Probe Num Bool) (reg : Registry Num)
      → P false reg
      → ((v : Num)
          → measure path body ≡ some v
          → Partly P (continue (gauge_set gauge (target ∷ path ∷ []) v reg)))
      → Partly P (report_body fl env gauge target path body continue reg)
  unfolding report_body
  Partly-report_body P gauge target path body continue reg fails step =
      Partly-or_fail P body _ reg fails λ content received.
        Partly-or_fail P (env.decode content) _ reg fails λ decoded is_json.
          Partly-or_fail P (env.search path decoded) _ reg fails λ result found.
            Partly-convert P result _ reg λ v is_number.
              Partly-or_fail P (some v) _ reg fails
                λ w same. step w (rw (received, is_json, found, is_number) same)

  -- A probe of JSON that succeeds has set its gauge to the number that the body of the target, with
  -- http:// in front where it names no scheme, gives under the path.
  pub probe_json-measure :
      (target path : String) (reg reg' : Registry Num)
      → probe_json fl env target path reg ≡ done true reg'
      → (v : Num) × (measure path (env.get_body (with_scheme target)) ≡ some v)
        × (value_of "probe_json_jmespath" (with_scheme target ∷ path ∷ []) reg' ≡ some v)
  unfolding probe_json
  probe_json-measure target path reg reg' h = Partly-elim Measured _ checked h refl
    where
      Measured : Bool → Registry Num → Type 0
      Measured b after =
          b ≡ true
          → (v : Num) × (measure path (env.get_body (with_scheme target)) ≡ some v)
            × (value_of "probe_json_jmespath" (with_scheme target ∷ path ∷ []) after ≡ some v)

      checked : Partly Measured (probe_json fl env target path reg)
      checked =
          let reg₁ : Registry Num = record reg {
            registered = "probe_json_jmespath" ∷ reg.registered;
          } in
          Partly-register Measured "probe_json_jmespath" _ reg (
            Partly-report_body Measured "probe_json_jmespath" (with_scheme target) path
              (env.get_body (with_scheme target)) (return true) reg₁ (λ e. cc)
              λ v given e. (
                v,
                given,
                value_of-set "probe_json_jmespath" (with_scheme target ∷ path ∷ []) v reg₁,
              ))

  -- The number for a query; the outer none is a query that is skipped.
  abbrev pub answer : (target : String) → Option (String × String) → Option (String × Option Num)
  answer target none = none
  answer target (some (query, path)) =
      some (path, measure path (env.post_body target (request_body query)))

  abbrev pub IsAnswered : Option (String × Option Num) → Type 0
  IsAnswered none = Unit
  IsAnswered (some (path, v)) = v ≢ none

  abbrev pub update_last : String → Option (String × Option Num) → Option Num → Option Num
  update_last path none before = before
  update_last path (some (p, v)) before = if str_eq p path then v else before

  -- The number of the last query for a path, or what was there before.
  abbrev pub last_number : (target path : String) → List String → Option Num → Option Num
  last_number target path [] before = before
  last_number target path (q ∷ qs) before =
      last_number target path qs (update_last path (answer target (parse_query q)) before)

  gauge_lem :
      (target path p : String) (v : Num) (reg : Registry Num)
      → value_of "probe_graphql_query"
          (target ∷ p ∷ [])
          (gauge_set "probe_graphql_query" (target ∷ path ∷ []) v reg)
        ≡ update_last p (some (path, some v)) (value_of "probe_graphql_query" (target ∷ p ∷ []) reg)
  gauge_lem target path p v reg = rw (eq_refl target) (ground arith)

  -- All queries are answered, and the gauge of each path shows the number of the last one.
  abbrev pub Measured :
      (target : String) → List String → Registry Num → Bool → Registry Num → Type 0
  Measured target qs reg b after =
      b ≡ true
      → All (λ q. IsAnswered (answer target (parse_query q))) qs
        × ((path : String)
            → value_of "probe_graphql_query" (target ∷ path ∷ []) after
              ≡ last_number target path qs
                  (value_of "probe_graphql_query" (target ∷ path ∷ []) reg))

  run_query-Measured :
      (target : String) (o : Option (String × String)) (q : String) (qs : List String)
      (reg : Registry Num)
      → parse_query q ≡ o
      → ((reg₁ : Registry Num)
          → Partly (Measured target qs reg₁) (run_queries fl env target qs reg₁))
      → Partly
          (Measured target (q ∷ qs) reg)
          (run_query fl env target o (run_queries fl env target qs) reg)
  run_query-Measured target none q qs reg formed rest =
      Partly-weaken (Measured target qs reg) (Measured target (q ∷ qs) reg) _ (rest reg)
        λ b after h e. rw formed ((tt, (h e).0), (h e).1)
  run_query-Measured target (some (query, path)) q qs reg formed rest =
      Partly-report_body (Measured target (q ∷ qs) reg) "probe_graphql_query" target path
        (env.post_body target (request_body query)) (run_queries fl env target qs) reg (λ e. cc)
        λ v given.
          Partly-weaken
            (Measured target qs (gauge_set "probe_graphql_query" (target ∷ path ∷ []) v reg))
            (Measured target (q ∷ qs) reg) _ (rest _)
            λ b after h e.
              rw (formed, given)
                (
                  ((λ k. cc), (h e).0),
                  λ p. (h e).1 p ∙ ap (last_number target p qs) (gauge_lem target path p v reg),
                )

  run_queries-Measured :
      (target : String) (qs : List String) (reg : Registry Num)
      → Partly (Measured target qs reg) (run_queries fl env target qs reg)
  unfolding run_queries
  run_queries-Measured target [] reg = λ e. (tt, λ path. refl)
  run_queries-Measured target (q ∷ qs) reg =
      run_query-Measured target (parse_query q) q qs reg refl (run_queries-Measured target qs)

  -- A GraphQL probe that succeeds has got a number or a text for each of its queries, but for those
  -- that are not of the form query|path, which it skips. A text counts as the number that
  -- `ParseFloat` makes of it, even if with an error. The gauge of each path shows the number of the
  -- last of the queries for that path, or what it showed before where there is none.
  pub probe_graphql-Measured :
      (target : String) (queries : List String) (reg reg' : Registry Num)
      → probe_graphql fl env target queries reg ≡ done true reg'
      → All (λ q. IsAnswered (answer (with_scheme target) (parse_query q))) queries
        × ((path : String)
            → value_of "probe_graphql_query" (with_scheme target ∷ path ∷ []) reg'
              ≡ last_number
                  (with_scheme target)
                  path
                  queries
                  (value_of "probe_graphql_query" (with_scheme target ∷ path ∷ []) reg))
  unfolding probe_graphql
  probe_graphql-Measured target queries reg reg' h =
      let reg₁ : Registry Num = record reg {
        registered = "probe_graphql_query" ∷ reg.registered;
      } in
      Partly-elim (Measured (with_scheme target) queries reg) _
        (Partly-register (Measured (with_scheme target) queries reg) "probe_graphql_query" _ reg
          (run_queries-Measured (with_scheme target) queries reg₁))
        h refl
