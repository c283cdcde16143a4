-- ===== src/Ethrpc/Calls.antt =====
-- prober/ethrpc.go: what `ProbeETHRPC` gets from outside, and the calls that it puts in a batch.
--
-- go-ethereum and math/big are the record `EthEnv`: `none` is an error, and a nil gas price. The
-- conversions of `weiToEther`, which only calls math/big, are the function `wei_to_ether`. Logging is
-- left out.
use Prim.Native.String.{◌++◌ as ◌<>◌}
use big_blackbox_exporter.Base.{
  ℕ, Bool, ◌||◌, List, [], ◌∷◌, String, Option, some, none, str_eq, if◌then◌else◌,
}
use big_blackbox_exporter.Base.Text.{split, remove_pair}
use big_blackbox_exporter.Base.Int.{ℤ}
use big_blackbox_exporter.Ethrpc.Arguments.{Arg, address, ArgEnv, args_of}
use big_blackbox_exporter.Ethrpc.Batch.{
  ValidAccount, BatchElem, get_balance, eth_call, Batched, append_both,
}

-- A method of an ABI, with the texts of its types.
pub record Method : Type 0 where
  pub name : String
  pub inputs : List String
  pub outputs : List String

pub record EthEnv (V Client Abi : Type 0) : Type 0 where
  pub dial : String → Option Client
  -- `ChainID` and `SuggestGasPrice`, as `Int64()`
  pub chain_id : Client → Option ℤ
  pub gas_price : Client → Option ℤ
  pub format_int : ℤ → String
  -- the number that `BlockNumber` returns, with an error or without
  pub block_number : Client → ℕ
  pub batch_call : Client → List BatchElem → Option (ℕ → String)
  pub is_hex_address : String → Bool
  pub abi_json : String → Option Abi
  pub methods : Abi → List Method
  pub pack : Abi → (method : String) → List Arg → Option (List ℕ)
  pub hex_encode : List ℕ → String
  pub arguments : ArgEnv
  -- the number after `n.SetString(r, 16)`
  pub set_string : String → ℤ
  -- `weiToEther(n).Float64()` and `SetInt(n).Float64()`
  pub wei_to_ether : ℤ → V
  pub to_float : ℤ → V

-- The parameters of the request.
pub record EthParams : Type 0 where
  pub module_name : String
  pub account : List String
  pub token : String
  pub symbol : String
  pub call : List String

pub record ValidCallParam : Type 0 where
  pub contract_name : String
  pub contract_address : String
  pub method_name : String
  pub method_args : String

-- The variables that are declared before the loop over the calls.
pub record CallState : Type 0 where
  pub method_name : String
  pub output_type : String

-- How the loop goes on after one parameter: `continue`, `break`, a panic, or a call that is appended.
pub data Step : Type 0 where
  skip : CallState → Step
  stop : Step
  crash : Step
  append : CallState → BatchElem → ValidCallParam → Step

abbrev pub erc20_abi : String
erc20_abi =
    "[{\"name\":\"balanceOf\",\"type\":\"function\",\"inputs\":[{\"name\":\"\",\"type\":\"address\"}],\"outputs\":[{\"name\":\"\",\"type\":\"uint256\"}]}]"

module _ {V Client Abi : Type 0} (env : EthEnv V Client Abi) where
  abbrev pub call_data : List ℕ → String
  call_data bytes = "0x" <> env.hex_encode bytes

  abbrev pub balance_request : ValidAccount → Option BatchElem
  balance_request account = some (get_balance account.account_address)

  abbrev pub erc20_request : (token : String) → Abi → ValidAccount → Option BatchElem
  erc20_request token abi account =
      elim (env.pack abi "balanceOf"
        (address (env.arguments.hex_to_address account.account_address) ∷ [])) [
          | none ↦ none
          | some bytes ↦ some (eth_call token (call_data bytes))
        ]

  -- The arguments of a call and their text; nothing is read where the method has not one output.
  abbrev pub call_args :
      (outputs inputs : List String) → (more : List String) → Option (String × List Arg)
  call_args (output ∷ []) inputs (args ∷ _) =
      elim (args_of env.arguments inputs (split b',' args)) [
        | none ↦ none
        | some values ↦ some (args, values)
      ]
  call_args _ inputs more = some ("", [])

  abbrev pub next_state : CallState → Method → CallState
  next_state state method = record {
    method_name = method.name;
    output_type = elim method.outputs [
      | [] ↦ state.output_type
      | output ∷ more ↦ elim more [ [] ↦ output | _ ∷ _ ↦ state.output_type ]
    ];
  }

  abbrev pub pack_call :
      CallState → (name contract_address : String) → Abi → Option (String × List Arg) → Step
  pack_call state name contract_address abi none = crash
  pack_call state name contract_address abi (some (text, args)) =
      elim (env.pack abi state.method_name args) [
        | none ↦ skip state
        | some bytes ↦ append state (eth_call contract_address (call_data bytes)) (record {
          contract_name = name;
          contract_address = contract_address;
          method_name = state.method_name;
          method_args = text;
        })
      ]

  abbrev pub call_method :
      CallState → (name contract_address : String) → (more : List String) → Abi → List Method → Step
  call_method state name contract_address more abi (method ∷ []) =
      pack_call (next_state state method) name contract_address abi
        (call_args method.outputs method.inputs more)
  call_method state name contract_address more abi _ = stop

  abbrev pub call_step : CallState → List String → Step
  call_step state (name ∷ contract_address ∷ abi_json ∷ more) = elim (env.abi_json abi_json) [
    | none ↦ skip state
    | some abi ↦ call_method state name contract_address more abi (env.methods abi)
  ]
  call_step state _ = skip state

  abbrev pub append_call :
      BatchElem
      → ValidCallParam
      → Option (String × Batched ValidCallParam)
      → Option (String × Batched ValidCallParam)
  append_call elem param none = none
  append_call elem param (some (output_type, batched)) =
      some (output_type, append_both (some (elem, param)) batched)

  -- The loop over the calls: the last output type, and the two lists.
  unfoldable pub batch_calls : CallState → List String → Option (String × Batched ValidCallParam)
  batch_calls state [] = some (state.output_type, ([], []))
  batch_calls state (call_param ∷ call_params) = elim (call_step state (split b'|' call_param)) [
    | skip state' ↦ batch_calls state' call_params
    | stop ↦ some (state.output_type, ([], []))
    | crash ↦ none
    | append state' elem param ↦ append_call elem param (batch_calls state' call_params)
  ]

  abbrev pub wei_value : (result : String) → V
  wei_value result = env.wei_to_ether (env.set_string (remove_pair b'0' b'x' result))

  abbrev pub call_value : (output_type result : String) → V
  call_value output_type result =
      if str_eq output_type "uint256" || str_eq output_type "int256"
      then wei_value result
      else env.to_float (env.set_string (remove_pair b'0' b'x' result))
