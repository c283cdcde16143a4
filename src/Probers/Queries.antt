-- ===== src/Probers/Queries.antt =====
-- The probes for Bitcoin, JSON and GraphQL leave the gauge `probe_success` to the handler.
use big_blackbox_exporter.Base.{String, List, [], ◌∷◌, true, Option, some, none, str_eq}
use big_blackbox_exporter.Float64.{Float64}
use big_blackbox_exporter.Metrics.{Registry, return}
use big_blackbox_exporter.Metrics.Inversion.{
  Partly, Partly-register, Partly-or_fail, Partly-or_fault,
}
use big_blackbox_exporter.Metrics.Unset.{IsUnset, Unset, Partly-if}
use big_blackbox_exporter.Base.Text.{with_scheme}
use big_blackbox_exporter.Btc.{BtcEnv, probe_btcrpc, chain_info}
use big_blackbox_exporter.Json.{
  JsonEnv, run_query, run_queries, probe_json, probe_graphql, parse_query, request_body,
}
use big_blackbox_exporter.Json.Soundness.{Partly-report_body}

module _ (fl : Float64) {Client : Type 0} (env : BtcEnv Client) where
  pub probe_btcrpc-Unset :
      (target user pass module_name : String) (reg : Registry (fl.Num))
      → IsUnset reg
      → Partly Unset (probe_btcrpc fl env target user pass module_name reg)
  unfolding probe_btcrpc
  probe_btcrpc-Unset target user pass module_name reg u = Partly-or_fault Unset _ _ reg λ client _.
      Partly-if Unset (str_eq module_name "btc_chain_info") (chain_info fl env target client)
        (return true) reg
        (Partly-register Unset "probe_btcrpc_block_number" _ reg
          (Partly-or_fail Unset _ _ _ u λ count _. u))
        u

module _ (fl : Float64) {Data : Type 0} (env : JsonEnv (fl.Num) Data) where
  open fl use {Num}

  run_query-Unset :
      (target : String) (o : Option (String × String)) (qs : List String) (reg : Registry Num)
      → IsUnset reg
      → ((reg' : Registry Num) → IsUnset reg' → Partly Unset (run_queries fl env target qs reg'))
      → Partly Unset (run_query fl env target o (run_queries fl env target qs) reg)
  run_query-Unset target none qs reg u more = more reg u
  run_query-Unset target (some (query, path)) qs reg u more =
      Partly-report_body fl env Unset "probe_graphql_query" target path
        (env.post_body target (request_body query)) (run_queries fl env target qs) reg u
        λ v _. more _ u

  run_queries-Unset :
      (target : String) (qs : List String) (reg : Registry Num)
      → IsUnset reg
      → Partly Unset (run_queries fl env target qs reg)
  unfolding run_queries
  run_queries-Unset target [] reg u = u
  run_queries-Unset target (q ∷ qs) reg u =
      run_query-Unset target (parse_query q) qs reg u (run_queries-Unset target qs)

  pub probe_graphql-Unset :
      (target : String) (queries : List String) (reg : Registry Num)
      → IsUnset reg
      → Partly Unset (probe_graphql fl env target queries reg)
  unfolding probe_graphql
  probe_graphql-Unset target queries reg u =
      Partly-register Unset "probe_graphql_query" _ reg
        (run_queries-Unset (with_scheme target) queries _ u)

  pub probe_json-Unset :
      (target path : String) (reg : Registry Num)
      → IsUnset reg
      → Partly Unset (probe_json fl env target path reg)
  unfolding probe_json
  probe_json-Unset target path reg u = Partly-register Unset "probe_json_jmespath" _ reg (
      Partly-report_body fl env Unset "probe_json_jmespath" (with_scheme target) path
        (env.get_body (with_scheme target)) (return true) _ u λ v _. u)
