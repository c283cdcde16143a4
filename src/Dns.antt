-- ===== src/Dns.antt =====
-- prober/dns.go: the validation of a DNS response.
--
-- The tables of miekg/dns and Go's regular expressions are parameters. `matches re text` is
-- `regexp.MatchString(re, text)`, where `none` is its error. Logging is left out.
pub mod Rules
pub mod Codes
pub mod Probe
mod Tests
use big_blackbox_exporter.Base.{
  ℕ, Bool, true, false, not, ◌&&◌, List, [], ◌∷◌, String, Option, some, none, ◌==◌, ltb, length,
  if◌then◌else◌, map,
}
use big_blackbox_exporter.Config.{DnsRrValidator}

-- A resource record: its text, and its serial number if it is a `*dns.SOA`.
pub record Rr : Type 0 where
  pub text : String
  pub serial : Option ℕ

module _ (matches : String → String → Option Bool) where
  -- The loop over `FailIfMatchesRegexp`; `false` is the return from the function.
  unfoldable pub no_match : String → List String → Bool
  no_match text [] = true
  no_match text (re ∷ res) = elim (matches re text) [
    | none ↦ false
    | some match ↦ if match then false else no_match text res
  ]

  -- The loop over `FailIfAllMatchRegexp`, which keeps `allMatch`.
  unfoldable pub keep_all_match : String → Bool → List String → Option Bool
  keep_all_match text all_match [] = some all_match
  keep_all_match text all_match (re ∷ res) = elim (matches re text) [
    | none ↦ none
    | some match ↦ keep_all_match text (if not match then false else all_match) res
  ]

  -- The loop over `FailIfNotMatchesRegexp`.
  unfoldable pub every_match : String → List String → Bool
  every_match text [] = true
  every_match text (re ∷ res) = elim (matches re text) [
    | none ↦ false
    | some match ↦ if not match then false else every_match text res
  ]

  -- The loop over `FailIfNoneMatchesRegexp`, which keeps `anyMatch`.
  unfoldable pub keep_any_match : String → Bool → List String → Option Bool
  keep_any_match text any_match [] = some any_match
  keep_any_match text any_match (re ∷ res) = elim (matches re text) [
    | none ↦ none
    | some match ↦ keep_any_match text (if match then true else any_match) res
  ]

  -- The two tests after the loops.
  abbrev pub conclude : DnsRrValidator → (any_match all_match : Bool) → Bool
  conclude v any_match all_match =
      if ltb 0 (length v.fail_if_all_match_regexp) && not all_match
      then false
      else if ltb 0 (length v.fail_if_none_matches_regexp) && not any_match
      then false
      else true

  -- The loop over the records.
  unfoldable pub check_rrs : DnsRrValidator → (any_match all_match : Bool) → List Rr → Bool
  unfolding no_match keep_all_match every_match keep_any_match
  check_rrs v any_match all_match [] = conclude v any_match all_match
  check_rrs v any_match all_match (rr ∷ rrs) =
      if not (no_match rr.text v.fail_if_matches_regexp)
      then false
      else elim (keep_all_match rr.text all_match v.fail_if_all_match_regexp) [
        | none ↦ false
        | some all' ↦
            if not (every_match rr.text v.fail_if_not_matches_regexp)
            then false
            else elim (keep_any_match rr.text any_match v.fail_if_none_matches_regexp) [
              | none ↦ false
              | some any' ↦ check_rrs v any' all' rrs
            ]
      ]

  unfoldable pub valid_rrs : List Rr → DnsRrValidator → Bool
  unfolding check_rrs
  valid_rrs rrs v =
      if length rrs == 0 && ltb 0 (length v.fail_if_not_matches_regexp)
      then false
      else if length rrs == 0 && ltb 0 (length v.fail_if_none_matches_regexp)
      then false
      else check_rrs v false true rrs

module _ (string_to_rcode : String → Option ℕ) where
  -- The loop that looks the names up; an unknown name is the return from the function.
  unfoldable pub lookup_rcodes : List String → Option (List ℕ)
  lookup_rcodes [] = some []
  lookup_rcodes (name ∷ names) = elim (string_to_rcode name) [
    | none ↦ none
    | some rc ↦ elim (lookup_rcodes names) [ none ↦ none | some rcs ↦ some (rc ∷ rcs) ]
  ]

  unfoldable pub is_listed : ℕ → List ℕ → Bool
  is_listed rcode [] = false
  is_listed rcode (rc ∷ rcs) = if rcode == rc then true else is_listed rcode rcs

  -- `dns.StringToRcode["NOERROR"]`, which is 0 where the table has no such name.
  abbrev pub or_zero : Option ℕ → ℕ
  or_zero none = 0
  or_zero (some rc) = rc

  unfoldable pub valid_rcode : ℕ → Option (List String) → Bool
  unfolding lookup_rcodes is_listed
  valid_rcode rcode none = is_listed rcode (or_zero (string_to_rcode "NOERROR") ∷ [])
  valid_rcode rcode (some valid) = elim (lookup_rcodes valid) [
    | none ↦ false
    | some rcs ↦ is_listed rcode rcs
  ]
