-- ===== src/Ethrpc/Batch/Each.antt =====
-- The two lists of a batch are aligned: the loop over its results reports each of what is valid with
-- the result of its own call.
use big_blackbox_exporter.Base.{
  ℕ, zero, suc, ◌≡◌, refl, ap, Bool, true, false, List, [], ◌∷◌, map, String, Option, some, none,
  length, drop,
}
use big_blackbox_exporter.Metrics.{
  Registry, Outcome, done, panic, Probe, and_then, ◌>>◌, return, ensure, or_fail, or_fault,
}
use big_blackbox_exporter.Ethrpc.Batch.{
  ValidAccount, BatchElem, Batched, append_both, request_of, parse_account, batch_accounts,
  get_elem?, report_from, report_results,
}

pub and_then_congr :
    {V A B : Type 0} (o : Outcome V A) (f g : A → Probe V B)
    → ((a : A) (reg : Registry V) → f a reg ≡ g a reg)
    → and_then o f ≡ and_then o g
and_then_congr (done a reg) f g h = h a reg
and_then_congr panic f g h = refl

pub ensure_congr :
    {V : Type 0} (b : Bool) (f g : Probe V Bool) (reg : Registry V)
    → f reg ≡ g reg
    → ensure b f reg ≡ ensure b g reg
unfolding ensure
ensure_congr true f g reg h = h
ensure_congr false f g reg h = refl

pub or_fail_congr :
    {V A : Type 0} (o : Option A) (f g : A → Probe V Bool) (reg : Registry V)
    → ((a : A) → f a reg ≡ g a reg)
    → or_fail o f reg ≡ or_fail o g reg
unfolding or_fail
or_fail_congr none f g reg h = refl
or_fail_congr (some a) f g reg h = h a

get_elem?-drop :
    {A : Type 0} (l : List A) (i : ℕ) (a : A) (rest : List A)
    → drop i l ≡ a ∷ rest
    → (get_elem? l i ≡ some a) × (drop (suc i) l ≡ rest)
get_elem?-drop [] zero a rest h = cc
get_elem?-drop [] (suc i) a rest h = cc
get_elem?-drop (b ∷ l) zero a rest h = (cc, cc)
get_elem?-drop (b ∷ l) (suc i) a rest h = get_elem?-drop l i a rest h

module _ {V A : Type 0} (report : A → (result : String) → Probe V (Unit {0})) where
  -- The reference: one list, each with the result of its index.
  unfoldable pub report_each : (i : ℕ) → List A → (results : ℕ → String) → Probe V (Unit {0})
  report_each i [] results = return tt
  report_each i (a ∷ rest) results = report a (results i) >> report_each (suc i) rest results

  report_from-eq-each :
      (i : ℕ) (batch : List BatchElem) (valid rest : List A) (results : ℕ → String)
      (reg : Registry V)
      → drop i valid ≡ rest
      → length batch ≡ length rest
      → report_from report i batch valid results reg ≡ report_each i rest results reg
  unfolding report_from report_each or_fault
  report_from-eq-each i [] valid [] results reg d same = refl
  report_from-eq-each i [] valid (a ∷ rest) results reg d same = cc
  report_from-eq-each i (e ∷ batch) valid [] results reg d same = cc
  report_from-eq-each i (e ∷ batch) valid (a ∷ rest) results reg d same =
      let (here, next) = get_elem?-drop valid i a rest d in
      rw here (
        and_then_congr (report a (results i) reg) _ _
          λ u reg₁. report_from-eq-each (suc i) batch valid rest results reg₁ next (cc))

  pub report_results-eq-each :
      (batched : Batched A) (results : ℕ → String) (reg : Registry V)
      → length batched.0 ≡ length batched.1
      → report_results report batched results reg ≡ report_each 0 batched.1 results reg
  report_results-eq-each (batch, valid) results reg same =
      report_from-eq-each 0 batch valid valid results reg refl same

length-append_both :
    {A : Type 0} (o : Option (BatchElem × A)) (batched : Batched A)
    → length batched.0 ≡ length batched.1
    → length (append_both o batched).0 ≡ length (append_both o batched).1
length-append_both none (batch, valid) same = same
length-append_both (some (elem, a)) (batch, valid) same = ap suc same

pub length-batch_accounts :
    (is_hex_address : String → Bool) (call : ValidAccount → Option BatchElem)
    (accounts : List String)
    → length (batch_accounts is_hex_address call accounts).0
      ≡ length (batch_accounts is_hex_address call accounts).1
unfolding batch_accounts
length-batch_accounts is_hex_address call [] = refl
length-batch_accounts is_hex_address call (a ∷ accounts) =
    length-append_both _ (batch_accounts is_hex_address call accounts)
      (length-batch_accounts is_hex_address call accounts)

abbrev pub append_valid : Option ValidAccount → List ValidAccount → List ValidAccount
append_valid none accounts = accounts
append_valid (some account) accounts = account ∷ accounts

-- The accounts whose parameter is well formed.
unfoldable pub valid_accounts : (is_hex_address : String → Bool) → List String → List ValidAccount
valid_accounts is_hex_address [] = []
valid_accounts is_hex_address (a ∷ accounts) =
    append_valid (parse_account is_hex_address a) (valid_accounts is_hex_address accounts)

append_both-valid :
    (request : ValidAccount → BatchElem) (o : Option ValidAccount) (accounts : List ValidAccount)
    → append_both
        (request_of (λ account. some (request account)) o)
        (map request accounts, accounts)
      ≡ (map request (append_valid o accounts), append_valid o accounts)
append_both-valid request none accounts = refl
append_both-valid request (some account) accounts = refl

-- With a request that never fails the lists are those of the valid accounts.
pub batch_accounts-eq-valid :
    (is_hex_address : String → Bool) (request : ValidAccount → BatchElem) (accounts : List String)
    → batch_accounts is_hex_address (λ account. some (request account)) accounts ≡ (
      map request (valid_accounts is_hex_address accounts),
      valid_accounts is_hex_address accounts,
    )
unfolding batch_accounts valid_accounts
batch_accounts-eq-valid is_hex_address request [] = refl
batch_accounts-eq-valid is_hex_address request (a ∷ accounts) =
    rw (batch_accounts-eq-valid is_hex_address request accounts) (
      append_both-valid request (parse_account is_hex_address a)
        (valid_accounts is_hex_address accounts))
