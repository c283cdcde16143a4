-- ===== src/History.antt =====
-- prober/history.go: the bounded history of probe results.
--
-- The mutex makes each method one atomic step, so a method is a function of the record's value.
-- An id is Go's int64: `increment` wraps around at 2 ^ 63.
pub mod Window
pub mod Refinement
pub mod Lookup
mod Tests
use big_blackbox_exporter.Base.{
  ℕ, zero, suc, ◌+◌, ◌-◌, ◌^◌, Bool, true, false, not, Option, none, some, List, [], ◌∷◌, ◌++◌,
  String, str_eq, ltb, ◌==◌, if◌then◌else◌, length, drop,
}
use big_blackbox_exporter.Base.Int.{ℤ, pos, negsuc, eqb_ℤ}

-- `int64 + 1`
abbrev pub increment : ℤ → ℤ
increment (pos n) = if n + 1 == 2 ^ 63 then negsuc (2 ^ 63 - 1) else pos (n + 1)
increment (negsuc zero) = pos 0
increment (negsuc (suc n)) = negsuc n

pub record Result : Type 0 where
  pub id : ℤ
  pub module_name : String
  pub target : String
  pub debug_output : String
  pub success : Bool

pub record ResultHistory : Type 0 where
  pub next_id : ℤ
  pub results : List Result
  pub preserved_failed_results : List Result
  pub max_results : ℕ

-- `append`, and a copy without the first element where the list is then too long.
append_bounded : ℕ → List Result → Result → List Result
append_bounded most rs r =
    let longer = rs ++ r ∷ [] in if ltb most (length longer) then drop 1 longer else longer

-- The branch of `Add` for a list that is too long. The list is not empty there, so `results[0]`
-- is its first element.
evict : ResultHistory → List Result → ResultHistory
evict rh [] = rh
evict rh (oldest ∷ rest) = record rh {
  results = rest;
  preserved_failed_results =
      if not oldest.success
      then append_bounded rh.max_results rh.preserved_failed_results oldest
      else rh.preserved_failed_results;
}

unfoldable pub add : String → String → String → Bool → ResultHistory → ResultHistory
unfolding evict append_bounded
add module_name target debug_output success rh =
    let r : Result = record {
      id = rh.next_id;
      module_name = module_name;
      target = target;
      debug_output = debug_output;
      success = success;
    } in
    let rs = rh.results ++ r ∷ [] in
    let rh' = record rh { next_id = increment rh.next_id; results = rs } in
    if ltb rh.max_results (length rs) then evict rh' rs else rh'

unfoldable pub list : ResultHistory → List Result
list rh = rh.preserved_failed_results ++ rh.results

-- The loop of both getters: the first result that passes the test.
unfoldable pub first : (Result → Bool) → List Result → Option Result
first test [] = none
first test (r ∷ rs) = if test r then some r else first test rs

-- `rest` stands for the second loop.
abbrev pub or_else : Option Result → Option Result → Option Result
or_else (some r) rest = some r
or_else none rest = rest

unfoldable pub get_by_id : ℤ → ResultHistory → Option Result
unfolding first
get_by_id id rh =
    or_else (first (λ r. eqb_ℤ r.id id) rh.preserved_failed_results)
      (first (λ r. eqb_ℤ r.id id) rh.results)

unfoldable pub get_by_target : String → ResultHistory → Option Result
unfolding first
get_by_target target rh =
    or_else (first (λ r. str_eq r.target target) rh.preserved_failed_results)
      (first (λ r. str_eq r.target target) rh.results)

-- `&prober.ResultHistory{MaxResults: limit}`
abbrev pub new_history : ℕ → ResultHistory
new_history limit = record {
  next_id = pos 0;
  results = [];
  preserved_failed_results = [];
  max_results = limit;
}
