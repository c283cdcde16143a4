-- ===== src/Ethrpc/Soundness.antt =====
-- What a probe of an Ethereum node that succeeds has got from it.
use big_blackbox_exporter.Base.{
  ℕ, ◌≡◌, refl, arith, eq_refl, Bool, true, false, not, [], ◌∷◌, String, some, str_eq,
  if◌then◌else◌, Bool-cases, inl, inr,
}
use big_blackbox_exporter.Base.Text.{with_scheme}
use big_blackbox_exporter.Base.Int.{ℤ, pos}
use big_blackbox_exporter.Float64.{Float64}
use big_blackbox_exporter.Metrics.{Registry, Probe, return, done, value_of}
use big_blackbox_exporter.Metrics.Inversion.{
  Partly, Partly-elim, Partly-skip, Partly-weaken, Partly-register, Partly-or_fail, Partly-or_fault,
  Partly-ensure,
}
use big_blackbox_exporter.Ethrpc.Batch.{Batched, batch_accounts, report_results}
use big_blackbox_exporter.Ethrpc.Calls.{
  EthEnv, EthParams, ValidCallParam, erc20_abi, balance_request, erc20_request, batch_calls,
}
use big_blackbox_exporter.Ethrpc.Probe.{
  is_empty, chain_info, send_batch, report_balance, balance, report_erc20, erc20_balance,
  report_call, contract_call, run_module, probe_ethrpc,
}

module _ (fl : Float64) {Client Abi : Type 0} (env : EthEnv (fl.Num) Client Abi) where
  open fl use {Num, of_int}

  -- The batch was sent in one call, which has no error.
  abbrev pub IsReplied : {A : Type 0} → Client → Batched A → Type 0
  IsReplied client batched =
      (results : ℕ → String) × (env.batch_call client batched.0 ≡ some results)

  -- The gauges show the gas price and the block number of the node.
  pub record IsChainShown (target chain : String) (client : Client) (reg : Registry Num)
      : Type 0 where
    pub price : ℤ
    pub priced : env.gas_price client ≡ some price
    pub gas_price :
        value_of "probe_ethrpc_gas_price" (target ∷ chain ∷ []) reg ≡ some (of_int price)
    pub block_number :
        value_of "probe_ethrpc_block_number" (target ∷ chain ∷ []) reg
        ≡ some (of_int (pos (env.block_number client)))

  module _ (params : EthParams) where
    -- There is a parameter with an account, and the batch of the balances is replied to.
    pub record IsBalanced (client : Client) : Type 0 where
      pub asked : is_empty params.account ≡ false
      pub replied :
          IsReplied client (batch_accounts env.is_hex_address (balance_request env) params.account)

    pub record IsTokenBalanced (client : Client) : Type 0 where
      pub asked : is_empty params.account ≡ false
      pub has_token : str_eq params.token "" ≡ false
      pub abi : Abi
      pub parsed : env.abi_json erc20_abi ≡ some abi
      pub replied :
          IsReplied client
            (batch_accounts env.is_hex_address (erc20_request env params.token abi) params.account)

    pub record IsCalled (client : Client) : Type 0 where
      pub asked : is_empty params.call ≡ false
      pub output_type : String
      pub batched : Batched ValidCallParam
      pub packed :
          batch_calls env (record { method_name = ""; output_type = "" }) params.call
          ≡ some (output_type, batched)
      pub replied : IsReplied client batched

    -- What the module of the request asks for.
    abbrev pub ModuleQueried : (target chain : String) → Client → Registry Num → Type 0
    ModuleQueried target chain client reg =
        if str_eq params.module_name "chain_info"
        then IsChainShown target chain client reg
        else if str_eq params.module_name "balance"
        then IsBalanced client
        else if str_eq params.module_name "erc20balance"
        then IsTokenBalanced client
        else if str_eq params.module_name "contract_call"
        then IsCalled client
        else Unit

    -- The node was dialed and has told its chain ID, and the module's query is answered.
    pub record IsQueried (target : String) (reg : Registry Num) : Type 0 where
      pub client : Client
      pub dialed : env.dial target ≡ some client
      pub chain_id : ℤ
      pub identified : env.chain_id client ≡ some chain_id
      pub queried : ModuleQueried target (env.format_int chain_id) client reg

  send_batch-IsReplied :
      {A : Type 0} (client : Client) (report : A → String → Probe Num (Unit {0}))
      (batched : Batched A) (Q : Type 0) (reg : Registry Num)
      → (IsReplied client batched → Q)
      → Partly (λ b _. b ≡ true → Q) (send_batch fl env client report batched reg)
  send_batch-IsReplied client report (batch, valid) Q reg q =
      Partly-or_fail (λ b _. b ≡ true → Q) (env.batch_call client batch) _ reg (λ e. cc)
        λ results h.
          Partly-skip (λ b _. b ≡ true → Q) (report_results report (batch, valid) results reg)
            (λ _. return true) λ unit reg' _. q (results, h)

  module _ (params : EthParams) (target chain : String) (client : Client) where
    chain_info-IsChainShown :
        (reg : Registry Num)
        → Partly
            (λ b after. b ≡ true → IsChainShown target chain client after)
            (chain_info fl env target chain client reg)
    chain_info-IsChainShown reg =
        let P : Bool → Registry Num → Type 0 =
          λ b after. b ≡ true → IsChainShown target chain client after in
        Partly-register P "probe_ethrpc_gas_price" _ reg (
          Partly-register P "probe_ethrpc_block_number" _ _ (
            Partly-or_fault P (env.gas_price client) _ _ λ price priced e. record {
              price = price;
              priced = priced;
              gas_price = rw (eq_refl target, eq_refl chain) refl;
              block_number = rw (eq_refl target, eq_refl chain) refl;
            }))

    balance-IsBalanced :
        (reg : Registry Num)
        → Partly
            (λ b _. b ≡ true → IsBalanced params client)
            (balance fl env params target chain client reg)
    unfolding balance
    balance-IsBalanced reg =
        let P : Bool → Registry Num → Type 0 = λ b _. b ≡ true → IsBalanced params client in
        Partly-register P "probe_ethrpc_balance" _ reg (
          Partly-ensure P (not (is_empty params.account)) _ _ (λ e. cc)
            λ some_account.
              send_batch-IsReplied client (report_balance fl env target chain) _ _ _
                λ replied. record { asked = ground arith; replied = replied })

    erc20_balance-IsTokenBalanced :
        (reg : Registry Num)
        → Partly
            (λ b _. b ≡ true → IsTokenBalanced params client)
            (erc20_balance fl env params target chain client reg)
    unfolding erc20_balance
    erc20_balance-IsTokenBalanced reg =
        let P : Bool → Registry Num → Type 0 = λ b _. b ≡ true → IsTokenBalanced params client in
        Partly-register P "probe_ethrpc_erc20balance" _ reg (
          Partly-ensure P (not (is_empty params.account)) _ _ (λ e. cc)
            λ some_account.
              Partly-ensure P (not (str_eq params.token "")) _ _ (λ e. cc)
                λ some_token.
                  Partly-or_fail P (env.abi_json erc20_abi) _ _ (λ e. cc)
                    λ abi parsed.
                      send_batch-IsReplied client (report_erc20 fl env params target chain) _ _ _
                        λ replied. record {
                          asked = ground arith;
                          has_token = ground arith;
                          abi = abi;
                          parsed = parsed;
                          replied = replied;
                        })

    contract_call-IsCalled :
        (reg : Registry Num)
        → Partly
            (λ b _. b ≡ true → IsCalled params client)
            (contract_call fl env params target chain client reg)
    unfolding contract_call
    contract_call-IsCalled reg =
        let P : Bool → Registry Num → Type 0 = λ b _. b ≡ true → IsCalled params client in
        Partly-register P "probe_ethrpc_contract_call" _ reg (
          Partly-ensure P (not (is_empty params.call)) _ _ (λ e. cc)
            λ some_call. Partly-or_fault P _ _ _ λ (output_type, batched) packed.
              send_batch-IsReplied client (report_call fl env target chain output_type) batched _ _
                λ replied. record {
                  asked = ground arith;
                  output_type = output_type;
                  batched = batched;
                  packed = packed;
                  replied = replied;
                })

    run_module-ModuleQueried :
        (reg : Registry Num)
        → Partly
            (λ b after. b ≡ true → ModuleQueried params target chain client after)
            (run_module fl env params target chain client reg)
    run_module-ModuleQueried reg = elim (Bool-cases (str_eq params.module_name "chain_info")) [
      | inl is_info ↦ rw is_info (chain_info-IsChainShown reg)
      | inr no_info ↦ rw no_info (elim (Bool-cases (str_eq params.module_name "balance")) [
        | inl is_balance ↦ rw is_balance (balance-IsBalanced reg)
        | inr no_balance ↦
            rw no_balance (elim (Bool-cases (str_eq params.module_name "erc20balance")) [
              | inl is_erc20 ↦ rw is_erc20 (erc20_balance-IsTokenBalanced reg)
              | inr no_erc20 ↦
                  rw no_erc20 (elim (Bool-cases (str_eq params.module_name "contract_call")) [
                    | inl is_call ↦ rw is_call (contract_call-IsCalled reg)
                    | inr other ↦ rw other λ e. tt
                  ])
            ])
      ])
    ]

  -- A probe of an Ethereum node that succeeds has dialed the target, with http:// in front where it
  -- names no scheme, and got the node's chain ID. For the module chain_info the gauges show its gas
  -- price and its block number. For the modules of balances and calls there was a parameter that
  -- asks for one, and the batch of all that are valid was replied to.
  pub probe_ethrpc-IsQueried :
      (params : EthParams) (target : String) (reg reg' : Registry Num)
      → probe_ethrpc fl env params target reg ≡ done true reg'
      → IsQueried params (with_scheme target) reg'
  unfolding probe_ethrpc
  probe_ethrpc-IsQueried params target reg reg' h =
      let P : Bool → Registry Num → Type 0 =
        λ b after. b ≡ true → IsQueried params (with_scheme target) after in
      Partly-elim P _
        (Partly-or_fail P (env.dial (with_scheme target)) _ reg (λ e. cc)
          λ client dialed.
            Partly-or_fail P (env.chain_id client) _ reg (λ e. cc)
              λ chain_id identified.
                Partly-weaken
                  (λ b after.
                    b ≡ true
                    → ModuleQueried params (with_scheme target) (env.format_int chain_id) client
                        after)
                  P _
                  (run_module-ModuleQueried params (with_scheme target) (env.format_int chain_id)
                    client reg)
                  λ b after queried e. record {
                    client = client;
                    dialed = dialed;
                    chain_id = chain_id;
                    identified = identified;
                    queried = queried e;
                  })
        h refl
