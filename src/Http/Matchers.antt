-- ===== src/Http/Matchers.antt =====
-- prober/http.go: `matchRegularExpressions` and `matchRegularExpressionsOnHeaders`.
--
-- `matches` is the `MatchString` method of a compiled expression, and `Match` on the bytes of a
-- body; decoding leaves no expression nil. A body that cannot be read is `none`. A header's
-- values are looked up under the canonical name. Logging is left out.
pub mod Rules
use big_blackbox_exporter.Base.{
  Bool, true, false, not, List, [], ◌∷◌, String, Option, some, none, ◌==◌, length, if◌then◌else◌,
}
use big_blackbox_exporter.Base.Text.{canonical_mime_header_key}
use big_blackbox_exporter.Base.Dict.{lookup}
use big_blackbox_exporter.Config.{Regexp, HeaderMatch, HttpProbe}

-- `http.Header`
abbrev pub Header : Type 0
Header = List (String × List String)

-- A name that is not in the map has the nil slice.
abbrev pub or_empty : Option (List String) → List String
or_empty none = []
or_empty (some values) = values

unfoldable pub values_of : Header → HeaderMatch → List String
unfolding lookup canonical_mime_header_key
values_of header spec = or_empty (lookup (canonical_mime_header_key spec.header) header)

-- The outer loop over the specs, where a pass that fails is the return from the function.
unfoldable pub check_specs : (HeaderMatch → List String → Bool) → Header → List HeaderMatch → Bool
unfolding values_of
check_specs check header [] = true
check_specs check header (spec ∷ specs) =
    if check spec (values_of header spec) then check_specs check header specs else false

module _ (matches : Regexp → String → Bool) where
  -- The loop over `FailIfBodyMatchesRegexp`, and the inner loop over a header's values.
  unfoldable pub no_body_match : String → List Regexp → Bool
  no_body_match body [] = true
  no_body_match body (re ∷ res) = if matches re body then false else no_body_match body res

  -- The loop over `FailIfBodyNotMatchesRegexp`.
  unfoldable pub every_body_match : String → List Regexp → Bool
  every_body_match body [] = true
  every_body_match body (re ∷ res) =
      if not (matches re body) then false else every_body_match body res

  unfoldable pub match_regular_expressions : Option String → HttpProbe → Bool
  unfolding no_body_match every_body_match
  match_regular_expressions none http = false
  match_regular_expressions (some body) http =
      if not (no_body_match body http.fail_if_body_matches_regexp)
      then false
      else every_body_match body http.fail_if_body_not_matches_regexp

  -- The loop over a header's values, up to the first match.
  unfoldable pub any_value_match : Regexp → List String → Bool
  any_value_match re [] = false
  any_value_match re (value ∷ values) = if matches re value then true else any_value_match re values

  -- One pass of the first loop; `false` is the return from the function.
  unfoldable pub check_no_match : HeaderMatch → List String → Bool
  unfolding any_value_match
  check_no_match spec values =
      if length values == 0 then spec.allow_missing else not (any_value_match spec.regexp values)

  -- One pass of the second loop.
  unfoldable pub check_match : HeaderMatch → List String → Bool
  unfolding any_value_match
  check_match spec values =
      if length values == 0 then spec.allow_missing else any_value_match spec.regexp values

  unfoldable pub match_regular_expressions_on_headers : Header → HttpProbe → Bool
  unfolding check_specs check_no_match check_match
  match_regular_expressions_on_headers header http =
      if check_specs check_no_match header http.fail_if_header_matches_regexp
      then check_specs check_match header http.fail_if_header_not_matches_regexp
      else false
