-- ===== src/Ethrpc/Reference.antt =====
-- The balances of accounts by a reference that has one list in place of two.
use big_blackbox_exporter.Base.{◌≡◌, ap, ◌∙◌, Bool, true, not, map, String, length}
use big_blackbox_exporter.Float64.{Float64}
use big_blackbox_exporter.Metrics.{
  Registry, Probe, ◌>>◌, return, must_register, ensure, or_fail, and_then,
}
use big_blackbox_exporter.Ethrpc.Batch.{ValidAccount, get_balance, Batched, batch_accounts}
use big_blackbox_exporter.Ethrpc.Batch.Each.{
  and_then_congr, ensure_congr, or_fail_congr, report_each, report_results-eq-each,
  length-batch_accounts, valid_accounts, batch_accounts-eq-valid,
}
use big_blackbox_exporter.Ethrpc.Calls.{EthEnv, EthParams, balance_request}
use big_blackbox_exporter.Ethrpc.Probe.{send_batch, is_empty, report_balance, balance}

module _ (fl : Float64) {Client Abi : Type 0} (env : EthEnv (fl.Num) Client Abi) where
  open fl use {Num}

  send_batch-eq-each :
      {A : Type 0} (client : Client) (report : A → (result : String) → Probe Num (Unit {0}))
      (batched : Batched A) (reg : Registry Num)
      → length batched.0 ≡ length batched.1
      → send_batch fl env client report batched reg
        ≡ or_fail
            (env.batch_call client batched.0)
            (λ results. report_each report 0 batched.1 results >> return true)
            reg
  send_batch-eq-each client report batched reg same =
      or_fail_congr (env.batch_call client batched.0) _ _ reg λ results.
        ap (λ o. and_then o (λ u. return true))
          (report_results-eq-each report batched results reg same)

  -- The balance of each valid account is asked for, and shown under its name and address.
  unfoldable pub balance_each : EthParams → (target chain : String) → Client → Probe Num Bool
  balance_each params target chain client = do
    must_register "probe_ethrpc_balance"
    ensure (not (is_empty params.account)) do
      let accounts = valid_accounts env.is_hex_address params.account
      or_fail
          (env.batch_call client (map (λ account. get_balance account.account_address) accounts))
          λ results. do
            report_each (report_balance fl env target chain) 0 accounts results
            return true

  -- The two lists that the balance module fills stay aligned: it does what the reference does, which
  -- has one list of the accounts whose parameter is well formed. Each of them is asked for once, in
  -- order, and shown with the result of its own call, and no index is out of range.
  pub balance-eq-balance_each :
      (params : EthParams) (target chain : String) (client : Client) (reg : Registry Num)
      → balance fl env params target chain client reg ≡ balance_each params target chain client reg
  unfolding balance balance_each
  balance-eq-balance_each params target chain client reg =
      and_then_congr (must_register "probe_ethrpc_balance" reg) _ _ λ u reg₁.
        ensure_congr (not (is_empty params.account)) _ _ reg₁ (
          send_batch-eq-each client (report_balance fl env target chain)
            (batch_accounts env.is_hex_address (balance_request env) params.account) reg₁
            (length-batch_accounts env.is_hex_address (balance_request env) params.account)
          ∙ ap
              (λ (batched : Batched ValidAccount).
                or_fail (env.batch_call client batched.0)
                  (λ results.
                    report_each (report_balance fl env target chain) 0 batched.1 results
                    >> return true)
                  reg₁)
              (batch_accounts-eq-valid env.is_hex_address
                (λ account. get_balance account.account_address) params.account))
