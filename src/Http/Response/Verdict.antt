-- ===== src/Http/Response/Verdict.antt =====
-- The verdict of an HTTP probe on the response that it gets.
use big_blackbox_exporter.Base.{
  ℕ, ◌≡◌, refl, Bool, true, false, not, ◌&&◌, ◌||◌, List, [], ◌∷◌, String, ltb, length,
  if◌then◌else◌, arith, Bool-cases, Option-cases, inl, inr,
}
use big_blackbox_exporter.Float64.{Float64}
use big_blackbox_exporter.Metrics.{Registry, must_register, contains}
use big_blackbox_exporter.Metrics.Inversion.{Partly, Partly-bind}
use big_blackbox_exporter.Config.{Regexp, HeaderMatch, HttpProbe}
use big_blackbox_exporter.Http.Matchers.{
  Header, check_specs, check_no_match, check_match, match_regular_expressions,
  match_regular_expressions_on_headers,
}
use big_blackbox_exporter.Http.Response.{
  Body, HttpResponse, ResponseEnv, is_valid_status, is_valid_version, decompress, read_body,
  read_all, match_headers, match_body, header_get, finish_response, check_response,
}

module _ {V : Type 0} (env : ResponseEnv V) where
  -- There is no expression for the body, or the body passes them.
  abbrev pub is_matching : HttpProbe → Body → Bool
  is_matching http body =
      if ltb 0 (length http.fail_if_body_matches_regexp)
        || ltb 0 (length http.fail_if_body_not_matches_regexp)
      then match_regular_expressions env.matches (read_all env body) http
      else true

  -- All that a response has to satisfy.
  abbrev pub verdict : HttpProbe → HttpResponse → (errored : Bool) → Bool
  verdict http resp errored =
      is_valid_status http.valid_status_codes resp.status_code
      && match_regular_expressions_on_headers env.matches resp.header http
      && (decompress env http resp.body).1
      && is_matching http (read_body env http resp.body)
      && (errored || not (read_body env http resp.body).failed)
      && is_valid_version http.valid_http_versions resp.proto

check_specs-eq-true :
    (check : HeaderMatch → List String → Bool) (header : Header) (specs : List HeaderMatch)
    → ltb 0 (length specs) ≡ false
    → check_specs check header specs ≡ true
unfolding check_specs
check_specs-eq-true check header [] h = refl
check_specs-eq-true check header (spec ∷ specs) h = absurd (ground arith)

no_specs :
    (matches : Regexp → String → Bool) (header : Header) (http : HttpProbe)
    → ltb 0 (length http.fail_if_header_matches_regexp) ≡ false
    → ltb 0 (length http.fail_if_header_not_matches_regexp) ≡ false
    → match_regular_expressions_on_headers matches header http ≡ true
unfolding match_regular_expressions_on_headers
no_specs matches header http h k =
    rw
      (
        check_specs-eq-true (check_no_match matches) header http.fail_if_header_matches_regexp h,
        check_specs-eq-true (check_match matches) header http.fail_if_header_not_matches_regexp k,
      )
      refl

module _ (fl : Float64) (env : ResponseEnv (fl.Num)) where
  match_headers-eq-and :
      (http : HttpProbe) (header : Header) (success : Bool) (reg : Registry (fl.Num))
      → Partly
          (λ s _. s ≡ (success && match_regular_expressions_on_headers env.matches header http))
          (match_headers fl env http header success reg)
  unfolding match_headers
  match_headers-eq-and http header false reg = refl
  match_headers-eq-and http header true reg =
      elim (Bool-cases (
        ltb 0 (length http.fail_if_header_matches_regexp)
        || ltb 0 (length http.fail_if_header_not_matches_regexp))) [
          | inl given ↦ rw given refl
          | inr free ↦
              rw (free, no_specs env.matches header http (ground arith) (ground arith)) refl
        ]

  match_body-eq-and :
      (http : HttpProbe) (body : Body) (success : Bool) (reg : Registry (fl.Num))
      → Partly
          (λ s _. s ≡ (success && is_matching env http body))
          (match_body fl env http body success reg)
  unfolding match_body
  match_body-eq-and http body false reg = refl
  match_body-eq-and http body true reg =
      elim (Bool-cases (
        ltb 0 (length http.fail_if_body_matches_regexp)
        || ltb 0 (length http.fail_if_body_not_matches_regexp))) [
          | inl given ↦ rw given refl
          | inr free ↦ rw free refl
        ]

  -- The verdict, and the number of bytes that were read.
  abbrev pub IsVerdict :
      HttpProbe → HttpResponse → (errored : Bool) → Bool × ℕ → Registry (fl.Num) → Type 0
  IsVerdict http resp errored (success, bytes) _ =
      (success ≡ verdict env http resp errored)
      × (bytes ≡ (if errored then 0 else (read_body env http resp.body).size))

  combined :
      (http : HttpProbe) (resp : HttpResponse) (errored s₁ s₂ : Bool)
      → s₁ ≡ (
          is_valid_status http.valid_status_codes resp.status_code
          && match_regular_expressions_on_headers env.matches resp.header http)
      → s₂ ≡ (
          (if (decompress env http resp.body).1 then s₁ else false)
          && is_matching env http (read_body env http resp.body))
      → (s₂
          && (errored || not (read_body env http resp.body).failed)
          && is_valid_version http.valid_http_versions resp.proto)
        ≡ verdict env http resp errored
  combined http resp errored s₁ s₂ first second = ground arith

  finish_response-IsVerdict :
      (http : HttpProbe) (resp : HttpResponse) (errored s : Bool) (reg : Registry (fl.Num))
      → (s
          && (errored || not (read_body env http resp.body).failed)
          && is_valid_version http.valid_http_versions resp.proto)
        ≡ verdict env http resp errored
      → Partly
          (IsVerdict http resp errored)
          (finish_response fl env http resp (read_body env http resp.body) errored s reg)
  unfolding finish_response must_register
  finish_response-IsVerdict http resp errored s reg e =
      elim (Option-cases (env.parse_time (header_get "Last-Modified" resp.header))) [
        | inl missing ↦ rw missing (e, refl)
        | inr (seconds, given) ↦
            elim (Bool-cases
              (contains "probe_http_last_modified_timestamp_seconds" reg.registered)) [
                | inl twice ↦ rw (given, twice) tt
                | inr new ↦ rw (given, new) (e, refl)
              ]
      ]

  pub check_response-IsVerdict :
      (http : HttpProbe) (resp : HttpResponse) (errored : Bool) (reg : Registry (fl.Num))
      → Partly (IsVerdict http resp errored) (check_response fl env http resp errored reg)
  unfolding check_response
  check_response-IsVerdict http resp errored reg =
      Partly-bind {A = Bool} {B = Bool × ℕ} _ (IsVerdict http resp errored) _ _
        (match_headers-eq-and http resp.header
          (is_valid_status http.valid_status_codes resp.status_code) reg)
        λ s₁ reg₁ first.
          Partly-bind {A = Bool} {B = Bool × ℕ} _ (IsVerdict http resp errored) _ _
            (match_body-eq-and http (read_body env http resp.body)
              (if (decompress env http resp.body).1 then s₁ else false) reg₁)
            λ s₂ reg₂ second.
              finish_response-IsVerdict http resp errored s₂ reg₂
                (combined http resp errored s₁ s₂ first second)
