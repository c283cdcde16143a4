-- ===== src/Http/Matchers/Rules.antt =====
-- What the matchers of an HTTP probe accept.
use mathlib.Core.List.{Memᴰ}
use mathlib.Core.List.Memᴰ.{not-nil}
use big_blackbox_exporter.Base.{
  ◌≡◌, ◌≢◌, ◌⊎◌, ◌↔◌, refl, sym, Bool, true, false, List, [], ◌∷◌, String, Option, some, none,
  arith, Bool-cases, inl, inr, All,
}
use big_blackbox_exporter.Config.{Regexp, HeaderMatch, HttpProbe}
use big_blackbox_exporter.Http.Matchers.{
  Header, values_of, no_body_match, every_body_match, match_regular_expressions, any_value_match,
  check_no_match, check_match, check_specs, match_regular_expressions_on_headers,
}

module _ (matches : Regexp → String → Bool) where
  -- The body was read, no expression of the first list matches it and every one of the second does.
  abbrev pub IsMatchingBody : HttpProbe → Option String → Type 0
  IsMatchingBody http none = ⊥
  IsMatchingBody http (some body) =
      All (λ re. matches re body ≡ false) http.fail_if_body_matches_regexp
      × All (λ re. matches re body ≡ true) http.fail_if_body_not_matches_regexp

  no_body_match_iff :
      (body : String) (res : List Regexp)
      → (no_body_match matches body res ≡ true) ↔ All (λ re. matches re body ≡ false) res
  unfolding no_body_match
  no_body_match_iff body [] = (λ h. tt, λ h. refl)
  no_body_match_iff body (re ∷ res) = ground (arith, no_body_match_iff body res)

  every_body_match_iff :
      (body : String) (res : List Regexp)
      → (every_body_match matches body res ≡ true) ↔ All (λ re. matches re body ≡ true) res
  unfolding every_body_match
  every_body_match_iff body [] = (λ h. tt, λ h. refl)
  every_body_match_iff body (re ∷ res) = ground (arith, every_body_match_iff body res)

  -- The body passes exactly where it could be read, no expression of
  -- `fail_if_body_matches_regexp` matches it and all of `fail_if_body_not_matches_regexp` do.
  pub match_regular_expressions_iff :
      (http : HttpProbe) (body : Option String)
      → (match_regular_expressions matches body http ≡ true) ↔ IsMatchingBody http body
  unfolding match_regular_expressions
  match_regular_expressions_iff http none = (λ h. cc, λ h. absurd h)
  match_regular_expressions_iff http (some body) = ground (
    arith,
    no_body_match_iff body http.fail_if_body_matches_regexp,
    every_body_match_iff body http.fail_if_body_not_matches_regexp,
  )

  -- No value matches, or the header is missing and may be.
  abbrev pub IsForbidding : Header → HeaderMatch → Type 0
  IsForbidding header spec =
      ((values_of header spec ≡ []) × (spec.allow_missing ≡ true))
      ⊎ ((values_of header spec ≢ [])
          × All (λ v. matches spec.regexp v ≡ false) (values_of header spec))

  -- Some value matches, or the header is missing and may be.
  abbrev pub IsRequiring : Header → HeaderMatch → Type 0
  IsRequiring header spec =
      ((values_of header spec ≡ []) × (spec.allow_missing ≡ true))
      ⊎ ((v : String) × Memᴰ v (values_of header spec) × (matches spec.regexp v ≡ true))

  any_value_match-eq-false :
      (re : Regexp) (values : List String)
      → (any_value_match matches re values ≡ false) ↔ All (λ v. matches re v ≡ false) values
  unfolding any_value_match
  any_value_match-eq-false re [] = (λ h. tt, λ h. refl)
  any_value_match-eq-false re (v ∷ values) = ground (arith, any_value_match-eq-false re values)

  any_value_match-finds :
      (re : Regexp) (values : List String)
      → any_value_match matches re values ≡ true
      → (v : String) × Memᴰ v values × (matches re v ≡ true)
  unfolding any_value_match
  any_value_match-finds re [] h = cc
  any_value_match-finds re (v ∷ values) h = elim (Bool-cases (matches re v)) [
    | inl hit ↦ (v, Memᴰ.head refl, hit)
    | inr miss ↦
        let (w, m, k) = any_value_match-finds re values (ground arith) in (w, Memᴰ.tail m, k)
  ]

  any_value_match_of :
      (re : Regexp) (values : List String) (v : String)
      → Memᴰ v values
      → matches re v ≡ true
      → any_value_match matches re values ≡ true
  unfolding any_value_match
  any_value_match_of re [] v m hit = absurd (not-nil m)
  any_value_match_of re (w ∷ values) v (Memᴰ.head same) hit = rw (sym same, hit) refl
  any_value_match_of re (w ∷ values) v (Memᴰ.tail m) hit =
      ground (arith, any_value_match_of re values v m hit)

  forbidding :
      (spec : HeaderMatch) (values : List String)
      → (check_no_match matches spec values ≡ true) ↔ (
          ((values ≡ []) × (spec.allow_missing ≡ true))
          ⊎ ((values ≢ []) × All (λ v. matches spec.regexp v ≡ false) values))
  unfolding check_no_match
  forbidding spec [] = (λ h. inl (refl, h), elim [ inl (_, h) ↦ h | inr (h, _) ↦ absurd (h refl) ])
  forbidding spec (v ∷ values) = (
    λ h. inr ((λ e. cc), (any_value_match-eq-false spec.regexp (v ∷ values)).0 (ground arith)),
    elim [
      | inl (e, _) ↦ cc
      | inr (_, none_matches) ↦
          ground (arith, (any_value_match-eq-false spec.regexp (v ∷ values)).1 none_matches)
    ],
  )

  requiring :
      (spec : HeaderMatch) (values : List String)
      → (check_match matches spec values ≡ true) ↔ (
          ((values ≡ []) × (spec.allow_missing ≡ true))
          ⊎ ((v : String) × Memᴰ v values × (matches spec.regexp v ≡ true)))
  unfolding check_match
  requiring spec [] =
      (λ h. inl (refl, h), elim [ inl (_, h) ↦ h | inr (_, m, _) ↦ absurd (not-nil m) ])
  requiring spec (v ∷ values) = (
    λ h. inr (any_value_match-finds spec.regexp (v ∷ values) (ground arith)),
    elim [
      | inl (e, _) ↦ cc
      | inr (w, m, hit) ↦ ground (arith, any_value_match_of spec.regexp (v ∷ values) w m hit)
    ],
  )

  check_specs_iff :
      (check : HeaderMatch → List String → Bool) (P : HeaderMatch → Type 0) (header : Header)
      → ((spec : HeaderMatch) → (check spec (values_of header spec) ≡ true) ↔ P spec)
      → (specs : List HeaderMatch) → (check_specs check header specs ≡ true) ↔ All P specs
  unfolding check_specs
  check_specs_iff check P header one [] = (λ h. tt, λ h. refl)
  check_specs_iff check P header one (spec ∷ specs) =
      let rest = check_specs_iff check P header one specs in
      elim (Bool-cases (check spec (values_of header spec))) [
        | inl fine ↦ rw fine (λ h. ((one spec).0 fine, rest.0 h), λ (p, ps). rest.1 ps)
        | inr bad ↦ rw bad (λ h. cc, λ (p, ps). cc ((one spec).1 p))
      ]

  -- The headers pass exactly where each spec of `fail_if_header_matches_regexp` matches no value
  -- of its header, and each of `fail_if_header_not_matches_regexp` matches some value of it; a
  -- header that is missing passes exactly where the spec allows that.
  pub match_regular_expressions_on_headers_iff :
      (header : Header) (http : HttpProbe)
      → (match_regular_expressions_on_headers matches header http ≡ true) ↔ (
          All (IsForbidding header) http.fail_if_header_matches_regexp
          × All (IsRequiring header) http.fail_if_header_not_matches_regexp)
  unfolding match_regular_expressions_on_headers
  match_regular_expressions_on_headers_iff header http = ground (
    arith,
    check_specs_iff (check_no_match matches) (IsForbidding header) header
        (λ spec. forbidding spec (values_of header spec)) http.fail_if_header_matches_regexp,
    check_specs_iff (check_match matches) (IsRequiring header) header
        (λ spec. requiring spec (values_of header spec)) http.fail_if_header_not_matches_regexp,
  )
