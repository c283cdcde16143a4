-- ===== src/Config/Unmarshal/Http.antt =====
-- When the configuration of an HTTP probe is accepted, and what then holds of it.
use mathlib.Core.Path.{subst}
use big_blackbox_exporter.Base.{
  ℕ, ◌+◌, ◌-◌, ◌^◌, ◌<◌, ◌≡◌, ◌⊎◌, inl, inr, refl, sym, ◌∙◌, Bool, true, false, not, ◌&&◌, List, [],
  ◌∷◌, String, Option, some, none, str_eq, eq_iff, All, arith, Bool-cases,
}
use big_blackbox_exporter.Base.Text.{canonical_mime_header_key}
use big_blackbox_exporter.Base.Int.{ℤ, pos, negsuc, ltb_ℤ, eqb_ℤ}
use big_blackbox_exporter.Config.{HttpClientConfig, HttpProbe, default_http_probe}
use big_blackbox_exporter.Config.Encoding.{Quality, is_compression_accept_encoding_valid}
use big_blackbox_exporter.Config.Unmarshal.{
  Result, ok, ◌>>◌, fail_if, check, max_int64, clamp_limit, follow, check_headers,
  unmarshal_http_probe, >>-eq-ok, fail_if-eq-ok, check-eq-ok, ok_injective,
}

-- The Accept-Encoding headers suit the compression.
abbrev pub SuitCompression : Quality → String → List (String × String) → Type 0
SuitCompression ql compression headers =
    All
      (λ h.
        canonical_mime_header_key h.0 ≡ "Accept-Encoding"
        → is_compression_accept_encoding_valid ql compression h.1 ≡ true)
      headers

check_headers_sound :
    (ql : Quality) (compression : String) (headers : List (String × String)) {u : Unit {0}}
    → check_headers ql compression headers ≡ ok u
    → SuitCompression ql compression headers
unfolding check_headers
check_headers_sound ql compression [] h = tt
check_headers_sound ql compression ((key, value) ∷ headers) h = (
  λ same. ground (arith, eq_iff (canonical_mime_header_key key) "Accept-Encoding"),
  check_headers_sound ql compression headers (ground arith),
)

check_headers_complete :
    (ql : Quality) (compression : String) (headers : List (String × String))
    → SuitCompression ql compression headers
    → check_headers ql compression headers ≡ ok tt
unfolding check_headers
check_headers_complete ql compression [] h = refl
check_headers_complete ql compression ((key, value) ∷ headers) (h, hs) = ground (
  arith,
  eq_iff (canonical_mime_header_key key) "Accept-Encoding",
  check_headers_complete ql compression headers hs,
  h,
)

-- The limit can be raised by one within an int64.
abbrev pub IsBounded : ℤ → Type 0
IsBounded limit = (n : ℕ) × (limit ≡ pos n) × (n + 1 < 2 ^ 63)

-- The limit for a decoded one: itself where it can be raised by one within an int64, and otherwise,
-- where it is negative or the greatest int64, the greatest that can.
abbrev pub IsClamped : (decoded limit : ℤ) → Type 0
IsClamped decoded limit =
    ((limit ≡ decoded) × IsBounded decoded)
    ⊎ ((limit ≡ pos (2 ^ 63 - 2))
        × ((decoded ≡ pos (2 ^ 63 - 1)) ⊎ ((n : ℕ) × (decoded ≡ negsuc n))))

clamp_limit-IsClamped :
    (limit : ℤ) → ltb_ℤ (pos max_int64) limit ≡ false → IsClamped limit (clamp_limit limit)
clamp_limit-IsClamped (negsuc n) h = inr (refl, inr (n, refl))
clamp_limit-IsClamped (pos n) h = elim (Bool-cases (eqb_ℤ (pos n) (pos max_int64))) [
  | inl most ↦ inr (ground arith, inl (ground arith))
  | inr less ↦ inl (ground arith, (n, refl, ground arith))
]

pub record IsAccepted (ql : Quality) (validate : HttpClientConfig → Option String) (d s : HttpProbe)
    : Type 0 where
  pub limit : IsClamped d.body_size_limit s.body_size_limit
  pub valid_client : validate d.http_client_config ≡ none
  pub one_body : (s.body ≡ "") ⊎ (s.body_file ≡ "")
  pub redirects :
      (b : Bool) → s.no_follow_redirects ≡ some b → s.http_client_config.follow_redirects ≡ not b
  pub client_kept : s.no_follow_redirects ≡ none → s.http_client_config ≡ d.http_client_config
  pub other_options :
      s.http_client_config
      ≡ record d.http_client_config { follow_redirects = s.http_client_config.follow_redirects }
  pub suited : SuitCompression ql s.compression s.headers
  pub kept :
      s
      ≡ record d { body_size_limit = s.body_size_limit; http_client_config = s.http_client_config }

follow-others :
    (o : Option Bool) (c : HttpClientConfig)
    → follow o c ≡ record c { follow_redirects = (follow o c).follow_redirects }
follow-others none c = refl
follow-others (some b) c = refl

one_body_test :
    (d : HttpProbe)
    → (d.body ≡ "") ⊎ (d.body_file ≡ "")
    → (not (str_eq d.body "") && not (str_eq d.body_file "")) ≡ false
one_body_test d h = ground (arith, eq_iff d.body "", eq_iff d.body_file "")

module _ (ql : Quality) (client : HttpClientConfig) (validate : HttpClientConfig → Option String)
    (decode : HttpProbe → Result HttpProbe) (d s : HttpProbe)
    (decoded : decode (default_http_probe client) ≡ ok d) where
  -- The value before the checks of the bodies and the headers.
  abbrev adjusted : HttpProbe
  adjusted = record d {
    body_size_limit = clamp_limit d.body_size_limit;
    http_client_config = follow d.no_follow_redirects d.http_client_config;
  }

  unmarshal_http_probe_lem : unmarshal_http_probe ql client validate decode ≡ (
      check (validate d.http_client_config)
      >> (fail_if
            (not (str_eq d.body "") && not (str_eq d.body_file ""))
            "setting body and body_file both are not allowed"
          >> (check_headers ql d.compression d.headers >> ok adjusted)))
  unfolding unmarshal_http_probe
  unmarshal_http_probe_lem = rw decoded

  adjusted-IsAccepted :
      ltb_ℤ (pos max_int64) d.body_size_limit ≡ false
      → validate d.http_client_config ≡ none
      → (not (str_eq d.body "") && not (str_eq d.body_file "")) ≡ false
      → SuitCompression ql d.compression d.headers
      → IsAccepted ql validate d adjusted
  adjusted-IsAccepted int64 valid one suited = record {
    limit = clamp_limit-IsClamped d.body_size_limit int64;
    valid_client = valid;
    one_body = ground (arith, eq_iff d.body "", eq_iff d.body_file "");
    redirects = λ b given. rw given;
    client_kept = λ none_given. rw none_given refl;
    other_options = follow-others d.no_follow_redirects d.http_client_config;
    suited = suited;
    kept = refl;
  }

  -- A configuration that is accepted has the decoded body size limit, but 2 ^ 63 - 2 where the
  -- decoded one, an int64, is negative or 2 ^ 63 - 1; its client configuration is valid, and as
  -- decoded but that `no_follow_redirects`, if it is given, decides whether redirects are followed;
  -- it has at most one of `body` and `body_file`; every Accept-Encoding header suits the compression; all other fields are as decoded.
  pub unmarshal_http_probe-IsAccepted :
      ltb_ℤ (pos max_int64) d.body_size_limit ≡ false
      → unmarshal_http_probe ql client validate decode ≡ ok s
      → IsAccepted ql validate d s
  unmarshal_http_probe-IsAccepted int64 h =
      let (valid, rest) = >>-eq-ok _ _ (sym unmarshal_http_probe_lem ∙ h) in
      let (one, rest') = >>-eq-ok _ _ rest in
      let (suited, same) = >>-eq-ok _ _ rest' in
      subst (λ x. IsAccepted ql validate d x) (ok_injective same)
        (adjusted-IsAccepted int64 (check-eq-ok _ valid) (fail_if-eq-ok _ _ one)
          (check_headers_sound ql d.compression d.headers suited))

  -- A decoded configuration with a valid client configuration, at most one body and Accept-Encoding
  -- headers that suit the compression is accepted.
  pub unmarshal_http_probe_accepts :
      validate d.http_client_config ≡ none
      → (d.body ≡ "") ⊎ (d.body_file ≡ "")
      → SuitCompression ql d.compression d.headers
      → unmarshal_http_probe ql client validate decode ≡ ok adjusted
  unmarshal_http_probe_accepts valid one suited =
      unmarshal_http_probe_lem
      ∙ rw (valid, one_body_test d one, check_headers_complete ql d.compression d.headers suited)
