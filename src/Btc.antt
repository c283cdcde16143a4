-- ===== src/Btc.antt =====
-- prober/btcrpc.go: `ProbeBTCRPC`.
--
-- The client of btcd is a parameter: making it may fail, which leaves a nil client, and a call of
-- `GetBlockCount` through a nil client is a panic, as is its `Shutdown` at the end. Logging is left
-- out.
pub mod Host
pub mod Soundness
mod Tests
use text.Mathlib.Text.{starts_with}
use Prim.Native.String.{◌++◌ as ◌<>◌}
use big_blackbox_exporter.Base.{
  Bool, true, false, not, List, [], ◌∷◌, String, Option, some, none, str_eq, if◌then◌else◌,
}
use big_blackbox_exporter.Base.Text.{trim_left, occurs}
use big_blackbox_exporter.Base.Int.{ℤ}
use big_blackbox_exporter.Float64.{Float64}
use big_blackbox_exporter.Metrics.{
  Probe, ◌>>=◌, ◌>>◌, return, must_register, set_gauge, or_fail, or_fault,
}

-- The fields of `rpcclient.ConnConfig` that depend on the request.
pub record ConnConfig : Type 0 where
  pub host : String
  pub user : String
  pub pass : String
  pub disable_tls : Bool

-- `strings.TrimLeft(target, cutset)`
unfoldable pub trim_cutset : (cutset target : String) → String
unfolding trim_left
trim_cutset cutset target = trim_left (λ c. occurs c cutset) target

-- The host and whether TLS is disabled.
unfoldable pub host_of : String → String × Bool
unfolding trim_cutset
host_of target =
    if starts_with target "http://"
    then (trim_cutset "http://" target, true)
    else if starts_with target "https://"
    then (trim_cutset "https://" target, false)
    else (target, true)

pub record BtcEnv (Client : Type 0) : Type 0 where
  pub new_client : ConnConfig → Option Client
  -- `client.GetBlockCount`
  pub get_block_count : Client → Option ℤ

module _ (fl : Float64) {Client : Type 0} (env : BtcEnv Client) where
  open fl use {Num, of_int}

  abbrev pub chain_info : (target : String) → Client → Probe Num Bool
  chain_info target client = do
    must_register "probe_btcrpc_block_number"
    or_fail (env.get_block_count client)
        λ count. do set_gauge "probe_btcrpc_block_number" (target ∷ []) (of_int count); return true

  unfoldable pub probe_btcrpc : (target user pass module_name : String) → Probe Num Bool
  unfolding host_of
  probe_btcrpc target user pass module_name =
      or_fault
        (env.new_client (record {
          host = (host_of target).0;
          user = user;
          pass = pass;
          disable_tls = (host_of target).1;
        }))
        λ client.
          if str_eq module_name "btc_chain_info" then chain_info target client else return true
