-- ===== src/Ethrpc/Batch.antt =====
-- prober/ethrpc.go: the accounts of a request, the calls that go out in one batch, and the loop over
-- the batch's results.
--
-- The client of go-ethereum is a parameter. What `BatchCall` writes through the pointer `Result` of
-- element `i` is the text at `i`; an element's own error is not looked at, and leaves the text
-- empty.
pub mod Each
use Prim.Native.String.{◌++◌ as ◌<>◌}
use big_blackbox_exporter.Base.{
  ℕ, zero, suc, ◌+◌, Bool, true, false, not, List, [], ◌∷◌, String, Option, some, none, str_eq,
  if◌then◌else◌,
}
use big_blackbox_exporter.Base.Text.{split}
use big_blackbox_exporter.Metrics.{Probe, ◌>>◌, return, or_fault}

pub record ValidAccount : Type 0 where
  pub account_name : String
  pub account_address : String

-- `rpc.BatchElem`, by its method and what its arguments depend on; the block is "latest".
pub data BatchElem : Type 0 where
  get_balance : (address : String) → BatchElem
  eth_call : (to data_hex : String) → BatchElem

-- The account, if its text has the form name:address.
abbrev pub account_of : (is_hex_address : String → Bool) → List String → Option ValidAccount
account_of is_hex_address (name ∷ address ∷ []) =
    if not (is_hex_address address)
    then none
    else if str_eq name ""
    then none
    else some (record { account_name = name; account_address = address })
account_of is_hex_address _ = none

unfoldable pub parse_account : (is_hex_address : String → Bool) → String → Option ValidAccount
unfolding split
parse_account is_hex_address a = account_of is_hex_address (split b':' a)

-- The two lists that the loop over the parameters appends to.
abbrev pub Batched : Type 0 → Type 0
Batched A = List BatchElem × List A

abbrev pub append_both : {A : Type 0} → Option (BatchElem × A) → Batched A → Batched A
append_both none (batch, valid) = (batch, valid)
append_both (some (elem, a)) (batch, valid) = (elem ∷ batch, a ∷ valid)

-- The call for an account; an account that cannot be packed is skipped.
abbrev pub request_of :
    (call : ValidAccount → Option BatchElem)
    → Option ValidAccount
    → Option (BatchElem × ValidAccount)
request_of call none = none
request_of call (some account) = elim (call account) [
  | none ↦ none
  | some elem ↦ some (elem, account)
]

unfoldable pub batch_accounts :
    (is_hex_address : String → Bool)
    → (call : ValidAccount → Option BatchElem) → List String
    → Batched ValidAccount
unfolding parse_account
batch_accounts is_hex_address call [] = ([], [])
batch_accounts is_hex_address call (a ∷ accounts) =
    append_both (request_of call (parse_account is_hex_address a))
      (batch_accounts is_hex_address call accounts)

abbrev pub get_elem? : {A : Type 0} → List A → ℕ → Option A
get_elem? [] i = none
get_elem? (a ∷ l) zero = some a
get_elem? (a ∷ l) (suc i) = get_elem? l i

-- `for i, e := range batch`, with `valid[i]`
unfoldable pub report_from :
    {V A : Type 0}
    → (report : A → (result : String) → Probe V (Unit {0})) → (i : ℕ) → List BatchElem
    → (valid : List A) → (results : ℕ → String) → Probe V (Unit {0})
report_from report i [] valid results = return tt
report_from report i (elem ∷ batch) valid results =
    or_fault (get_elem? valid i) (λ a. report a (results i))
    >> report_from report (suc i) batch valid results

abbrev pub report_results :
    {V A : Type 0}
    → (report : A → (result : String) → Probe V (Unit {0})) → Batched A
    → (results : ℕ → String) → Probe V (Unit {0})
report_results report (batch, valid) results = report_from report 0 batch valid results
