-- ===== src/Ethrpc/Tests.antt =====
-- The balances of two accounts, and the theorem at that request; the conversions of arguments.
use big_blackbox_exporter.Base.{
  ◌≡◌, refl, Bool, true, not, [], ◌∷◌, some, none, str_eq, ◌==◌, if◌then◌else◌,
}
use big_blackbox_exporter.Base.Text.{remove_pair}
use big_blackbox_exporter.Base.Int.{ℤ, pos, negsuc}
use big_blackbox_exporter.Float64.Millis.{millis}
use big_blackbox_exporter.Metrics.{
  Registry, new_registry, Outcome, done, panic, value_of, must_register, ensure, or_fail, or_fault,
}
use big_blackbox_exporter.Ethrpc.Arguments.{
  integer, big_integer, boolean, ArgEnv, signed, unsigned, args_of,
}
use big_blackbox_exporter.Ethrpc.Batch.{batch_accounts, report_from}
use big_blackbox_exporter.Ethrpc.Calls.{EthEnv, EthParams}
use big_blackbox_exporter.Ethrpc.Probe.{balance}
use big_blackbox_exporter.Ethrpc.Reference.{balance_each, balance-eq-balance_each}

abbrev arguments : ArgEnv
arguments = record {
  hex_to_address = λ _. [];
  parse_int = λ s. if str_eq s "200" then pos 200 else negsuc 0;
  parse_bool = λ s. str_eq s "true";
}

-- 200 as an int8 wraps to -56, and -1 as a uint16 to the greatest one.
conversions :
    (signed 8 (pos 200) ≡ negsuc 55)
    × (signed 8 (negsuc 127) ≡ negsuc 127)
    × (unsigned 16 (negsuc 0) ≡ 65535)
    × (args_of arguments ("int8" ∷ "uint256" ∷ "bool" ∷ []) ("200" ∷ "200" ∷ "true" ∷ [])
        ≡ some (integer "int8" (negsuc 55) ∷ big_integer (pos 200) ∷ boolean true ∷ []))
    × (args_of arguments ("int8" ∷ []) [] ≡ none)
unfolding signed args_of
conversions = (refl, refl, refl, refl, refl)

abbrev env : EthEnv ℤ (Unit {0}) (Unit {0})
env = record {
  dial = λ _. some tt;
  chain_id = λ _. some (pos 1);
  gas_price = λ _. some (pos 1);
  format_int = λ _. "1";
  block_number = λ _. 1;
  batch_call = λ _ batch. some (λ i. if i == 0 then "7" else "9");
  is_hex_address = λ s. not (str_eq s "bad");
  abi_json = λ _. none;
  methods = λ _. [];
  pack = λ _ _ _. none;
  hex_encode = λ _. "";
  arguments = arguments;
  set_string = λ s. if str_eq s "7" then pos 7 else pos 9;
  wei_to_ether = λ n. n;
  to_float = λ n. n;
}

-- The second account is not valid.
abbrev params : EthParams
params = record {
  module_name = "balance";
  account = "a:x" ∷ "b:bad" ∷ "c:y" ∷ [];
  token = "";
  symbol = "";
  call = [];
}

registry_of : Outcome ℤ Bool → Registry ℤ
registry_of panic = new_registry
registry_of (done b reg) = reg

run : Outcome ℤ Bool
unfolding balance batch_accounts report_from must_register ensure or_fail or_fault
run = balance millis env params "t" "1" tt new_registry

run_balances :
    (value_of "probe_ethrpc_balance" ("t" ∷ "1" ∷ "x" ∷ "a" ∷ []) (registry_of run) ≡ some (pos 7))
    × (value_of "probe_ethrpc_balance" ("t" ∷ "1" ∷ "y" ∷ "c" ∷ []) (registry_of run)
        ≡ some (pos 9))
unfolding run registry_of remove_pair
run_balances = (refl, refl)

balance-eq-balance_each_example :
    balance millis env params "t" "1" tt new_registry
    ≡ balance_each millis env params "t" "1" tt new_registry
balance-eq-balance_each_example = balance-eq-balance_each millis env params "t" "1" tt new_registry
