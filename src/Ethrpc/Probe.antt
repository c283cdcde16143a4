-- ===== src/Ethrpc/Probe.antt =====
-- prober/ethrpc.go: `ProbeETHRPC`, the switch on the module and the gauges.
use big_blackbox_exporter.Base.Text.{with_scheme}
use big_blackbox_exporter.Base.{
  Bool, true, false, not, List, [], ◌∷◌, String, str_eq, if◌then◌else◌,
}
use big_blackbox_exporter.Base.Int.{pos}
use big_blackbox_exporter.Float64.{Float64}
use big_blackbox_exporter.Ethrpc.Batch.{ValidAccount, Batched, batch_accounts, report_results}
use big_blackbox_exporter.Ethrpc.Calls.{
  EthEnv, EthParams, ValidCallParam, erc20_abi, balance_request, erc20_request, batch_calls,
  wei_value, call_value,
}
use big_blackbox_exporter.Metrics.{
  Probe, ◌>>◌, return, must_register, set_gauge, ensure, or_fail, or_fault,
}

abbrev pub is_empty : {A : Type 0} → List A → Bool
is_empty [] = true
is_empty (_ ∷ _) = false

module _ (fl : Float64) {Client Abi : Type 0} (env : EthEnv (fl.Num) Client Abi) where
  open fl use {Num, of_int}

  abbrev pub chain_info : (target chain : String) → Client → Probe Num Bool
  chain_info target chain client = do
    must_register "probe_ethrpc_gas_price"
    must_register "probe_ethrpc_block_number"
    or_fault (env.gas_price client) λ price. do
      set_gauge "probe_ethrpc_gas_price" (target ∷ chain ∷ []) (of_int price)
      set_gauge "probe_ethrpc_block_number" (target ∷ chain ∷ [])
          (of_int (pos (env.block_number client)))
      return true

  -- The batch is sent, and each result reported.
  abbrev pub send_batch :
      {A : Type 0}
      → Client
      → (report : A → (result : String) → Probe Num (Unit {0})) → Batched A
      → Probe Num Bool
  send_batch client report batched =
      or_fail (env.batch_call client batched.0)
        λ results. do report_results report batched results; return true

  abbrev pub report_balance :
      (target chain : String) → ValidAccount → (result : String) → Probe Num (Unit {0})
  report_balance target chain account result =
      set_gauge "probe_ethrpc_balance"
        (target ∷ chain ∷ account.account_address ∷ account.account_name ∷ [])
        (wei_value env result)

  unfoldable pub balance : EthParams → (target chain : String) → Client → Probe Num Bool
  balance params target chain client = do
    must_register "probe_ethrpc_balance"
    ensure (not (is_empty params.account)) (
        send_batch client (report_balance target chain)
          (batch_accounts env.is_hex_address (balance_request env) params.account))

  abbrev pub report_erc20 :
      EthParams → (target chain : String) → ValidAccount → (result : String) → Probe Num (Unit {0})
  report_erc20 params target chain account result =
      set_gauge "probe_ethrpc_erc20balance"
        (target ∷ chain ∷ account.account_address ∷ account.account_name ∷ params.symbol
          ∷ params.token ∷ [])
        (wei_value env result)

  unfoldable pub erc20_balance : EthParams → (target chain : String) → Client → Probe Num Bool
  erc20_balance params target chain client = do
    must_register "probe_ethrpc_erc20balance"
    ensure (not (is_empty params.account)) (
        ensure (not (str_eq params.token "")) (
          or_fail (env.abi_json erc20_abi) λ abi.
            send_batch client (report_erc20 params target chain) (
              batch_accounts env.is_hex_address (erc20_request env params.token abi)
                params.account)))

  abbrev pub report_call :
      (target chain output_type : String)
      → ValidCallParam
      → (result : String) → Probe Num (Unit {0})
  report_call target chain output_type param result =
      set_gauge "probe_ethrpc_contract_call"
        (target ∷ chain ∷ param.contract_address ∷ param.contract_name ∷ param.method_name
          ∷ param.method_args ∷ [])
        (call_value env output_type result)

  unfoldable pub contract_call : EthParams → (target chain : String) → Client → Probe Num Bool
  contract_call params target chain client = do
    must_register "probe_ethrpc_contract_call"
    ensure (not (is_empty params.call)) (
        or_fault (batch_calls env (record { method_name = ""; output_type = "" }) params.call)
          λ (output_type, batched).
            send_batch client (report_call target chain output_type) batched)

  -- The switch on the name of the module.
  abbrev pub run_module : EthParams → (target chain : String) → Client → Probe Num Bool
  run_module params target chain client =
      if str_eq params.module_name "chain_info"
      then chain_info target chain client
      else if str_eq params.module_name "balance"
      then balance params target chain client
      else if str_eq params.module_name "erc20balance"
      then erc20_balance params target chain client
      else if str_eq params.module_name "contract_call"
      then contract_call params target chain client
      else return true

  unfoldable pub probe_ethrpc : EthParams → (target : String) → Probe Num Bool
  probe_ethrpc params target = or_fail (env.dial (with_scheme target)) λ client.
      or_fail (env.chain_id client)
        λ chain_id. run_module params (with_scheme target) (env.format_int chain_id) client
