-- ===== src/Probers/Nodes.antt =====
-- The probe of an Ethereum node leaves the gauge `probe_success` to the handler.
use big_blackbox_exporter.Base.{ℕ, suc, String, List, [], ◌∷◌, Bool, true, str_eq}
use big_blackbox_exporter.Base.Text.{with_scheme}
use big_blackbox_exporter.Float64.{Float64}
use big_blackbox_exporter.Metrics.{Registry, Probe, return}
use big_blackbox_exporter.Metrics.Inversion.{
  Partly, Partly-register, Partly-or_fail, Partly-or_fault, Partly-ensure,
}
use big_blackbox_exporter.Metrics.Unset.{IsUnset, Unset, Partly-if, Unset-bind}
use big_blackbox_exporter.Ethrpc.Batch.{BatchElem, Batched, get_elem?, report_from}
use big_blackbox_exporter.Ethrpc.Calls.{EthEnv, EthParams}
use big_blackbox_exporter.Ethrpc.Probe.{
  chain_info, send_batch, balance, report_balance, erc20_balance, report_erc20, contract_call,
  report_call, run_module, probe_ethrpc,
}

-- A report of one result that leaves the gauge unset.
abbrev Reports : {V A : Type 0} → (A → String → Probe V (Unit {0})) → Type 0
Reports {V} {A} report =
    (a : A) (result : String) (reg : Registry V) → IsUnset reg → Partly Unset (report a result reg)

report_from-Unset :
    {V A : Type 0} (report : A → String → Probe V (Unit {0})) (i : ℕ) (batch : List BatchElem)
    (valid : List A) (results : ℕ → String) (reg : Registry V)
    → Reports report
    → IsUnset reg
    → Partly Unset (report_from report i batch valid results reg)
unfolding report_from
report_from-Unset report i [] valid results reg keeps u = u
report_from-Unset report i (elem ∷ batch) valid results reg keeps u =
    Unset-bind _ _
      (Partly-or_fault Unset (get_elem? valid i) _ reg λ a _. keeps a (results i) reg u)
      λ unit reg' u'. report_from-Unset report (suc i) batch valid results reg' keeps u'

module _ (fl : Float64) {Client Abi : Type 0} (env : EthEnv (fl.Num) Client Abi) where
  open fl use {Num}

  send_batch-Unset :
      {A : Type 0} (client : Client) (report : A → String → Probe Num (Unit {0}))
      (batched : Batched A) (reg : Registry Num)
      → Reports report
      → IsUnset reg
      → Partly Unset (send_batch fl env client report batched reg)
  send_batch-Unset client report (batch, valid) reg keeps u =
      Partly-or_fail Unset (env.batch_call client batch) _ reg u λ results _.
        Unset-bind (report_from report 0 batch valid results reg) _
          (report_from-Unset report 0 batch valid results reg keeps u) λ unit reg' u'. u'

  module _ (params : EthParams) (target chain : String) (client : Client) where
    balance-Unset :
        (reg : Registry Num)
        → IsUnset reg
        → Partly Unset (balance fl env params target chain client reg)
    unfolding balance
    balance-Unset reg u = Partly-register Unset "probe_ethrpc_balance" _ reg (
        Partly-ensure Unset _ _ _ u λ _.
          send_batch-Unset client (report_balance fl env target chain) _ _
            (λ account result reg' u'. u') u)

    erc20_balance-Unset :
        (reg : Registry Num)
        → IsUnset reg
        → Partly Unset (erc20_balance fl env params target chain client reg)
    unfolding erc20_balance
    erc20_balance-Unset reg u = Partly-register Unset "probe_ethrpc_erc20balance" _ reg (
        Partly-ensure Unset _ _ _ u λ _. Partly-ensure Unset _ _ _ u λ _.
          Partly-or_fail Unset _ _ _ u λ abi _.
            send_batch-Unset client (report_erc20 fl env params target chain) _ _
              (λ account result reg' u'. u') u)

    contract_call-Unset :
        (reg : Registry Num)
        → IsUnset reg
        → Partly Unset (contract_call fl env params target chain client reg)
    unfolding contract_call
    contract_call-Unset reg u = Partly-register Unset "probe_ethrpc_contract_call" _ reg (
        Partly-ensure Unset _ _ _ u λ _. Partly-or_fault Unset _ _ _ λ (output_type, batched) _.
          send_batch-Unset client (report_call fl env target chain output_type) batched _
            (λ param result reg' u'. u') u)

    chain_info-Unset :
        (reg : Registry Num)
        → IsUnset reg
        → Partly Unset (chain_info fl env target chain client reg)
    chain_info-Unset reg u = Partly-register Unset "probe_ethrpc_gas_price" _ reg (
        Partly-register Unset "probe_ethrpc_block_number" _ _
          (Partly-or_fault Unset _ _ _ λ price _. u))

    run_module-Unset :
        (reg : Registry Num)
        → IsUnset reg
        → Partly Unset (run_module fl env params target chain client reg)
    run_module-Unset reg u =
        let P : Bool → Registry Num → Type 0 = Unset in
        Partly-if P (str_eq params.module_name "chain_info") (chain_info fl env target chain client)
          _ reg (chain_info-Unset reg u)
          (Partly-if P (str_eq params.module_name "balance")
            (balance fl env params target chain client) _ reg (balance-Unset reg u)
            (Partly-if P (str_eq params.module_name "erc20balance")
              (erc20_balance fl env params target chain client) _ reg (erc20_balance-Unset reg u)
              (Partly-if P (str_eq params.module_name "contract_call")
                (contract_call fl env params target chain client) (return true) reg
                (contract_call-Unset reg u) u)))

  pub probe_ethrpc-Unset :
      (params : EthParams) (target : String) (reg : Registry Num)
      → IsUnset reg
      → Partly Unset (probe_ethrpc fl env params target reg)
  unfolding probe_ethrpc
  probe_ethrpc-Unset params target reg u = Partly-or_fail Unset _ _ reg u λ client _.
      Partly-or_fail Unset _ _ reg u λ chain_id _.
        run_module-Unset params (with_scheme target) (env.format_int chain_id) client reg u
