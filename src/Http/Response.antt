-- ===== src/Http/Response.antt =====
-- prober/http.go: what `ProbeHTTP` does with the response that it gets.
--
-- A body is what a reader gives: its content, the number of its bytes, and whether reading ends
-- with an error. The readers that decompress or limit a body are parameters, as is the parsing of
-- dates. Closing a body and logging are left out.
pub mod Verdict
use text.Mathlib.Text.{starts_with}
use big_blackbox_exporter.Base.{
  ℕ, Bool, true, false, not, ◌&&◌, ◌||◌, List, [], ◌∷◌, String, Option, some, none, str_eq, ltb,
  leb, ◌==◌, length, if◌then◌else◌,
}
use big_blackbox_exporter.Base.Text.{trim_prefix}
use big_blackbox_exporter.Base.Int.{ℤ, pos, eqb_ℤ, ltb_ℤ}
use big_blackbox_exporter.Base.Dict.{lookup}
use big_blackbox_exporter.Float64.{Float64}
use big_blackbox_exporter.Metrics.{
  Probe, ◌>>=◌, ◌>>◌, return, must_register, must_register_all, set_gauge, or_fault,
}
use big_blackbox_exporter.Config.{Regexp, HttpProbe}
use big_blackbox_exporter.Tls.{
  Time, ConnectionState, get_earliest_cert_expiry, get_last_chain_expiry, get_fingerprint,
  get_subject, get_issuer, get_dns_names, get_tls_version,
}
use big_blackbox_exporter.Tls.Report.{report_connection}
use big_blackbox_exporter.Http.Matchers.{
  Header, or_empty, match_regular_expressions, match_regular_expressions_on_headers,
}

pub record Body : Type 0 where
  pub content : String
  pub size : ℕ
  pub failed : Bool

-- The fields of `http.Response` that are read.
pub record HttpResponse : Type 0 where
  pub status_code : ℤ
  pub proto : String
  pub header : Header
  pub content_length : ℤ
  pub body : Body
  pub tls : Option ConnectionState

-- `resp = &http.Response{}`
abbrev pub no_response : HttpResponse
no_response = record {
  status_code = pos 0;
  proto = "";
  header = [];
  content_length = pos 0;
  body = record { content = ""; size = 0; failed = false };
  tls = none;
}

pub record ResponseEnv (V : Type 0) : Type 0 where
  pub matches : Regexp → String → Bool
  -- `strings.ToLower`
  pub to_lower : String → String
  -- the readers of the packages brotli, flate and gzip; only the last may fail
  pub brotli : Body → Body
  pub flate : Body → Body
  pub gzip : Body → Option Body
  -- what is left of a body where a gzip reader could not be opened
  pub gzip_rest : Body → Body
  -- `http.MaxBytesReader`
  pub max_bytes : ℤ → Body → Body
  -- `http.ParseTime`, in seconds
  pub parse_time : String → Option V
  -- `float64(t.Unix())`
  pub unix : Time → V
  -- the hexadecimal SHA-256 sum
  pub fingerprint : List ℕ → String

abbrev pub contains_code : ℤ → List ℤ → Bool
contains_code code [] = false
contains_code code (c ∷ codes) = if eqb_ℤ code c then true else contains_code code codes

-- One of the valid status codes, or 2xx where none is given.
unfoldable pub is_valid_status : List ℤ → ℤ → Bool
is_valid_status valid code =
    if not (length valid == 0)
    then contains_code code valid
    else not (ltb_ℤ code (pos 200)) && ltb_ℤ code (pos 300)

abbrev pub contains_version : String → List String → Bool
contains_version proto [] = false
contains_version proto (v ∷ versions) =
    if str_eq v proto then true else contains_version proto versions

unfoldable pub is_valid_version : List String → String → Bool
is_valid_version valid proto =
    if not (length valid == 0) then contains_version proto valid else true

-- `Header.Get`
abbrev pub first_or_empty : List String → String
first_or_empty [] = ""
first_or_empty (value ∷ _) = value

unfoldable pub header_get : String → Header → String
unfolding lookup
header_get name header = first_or_empty (or_empty (lookup name header))

module _ {V : Type 0} (env : ResponseEnv V) where
  -- `getDecompressionReader`: the reader, where none is its error, and what is then left to read of
  -- the original body. Opening a gzip reader reads from it even where that fails.
  unfoldable pub get_decompression_reader : String → Body → Option Body × Body
  get_decompression_reader algorithm body =
      let name = env.to_lower algorithm in
      if str_eq name "br"
      then (some (env.brotli body), body)
      else if str_eq name "deflate"
      then (some (env.flate body), body)
      else if str_eq name "gzip"
      then (env.gzip body, env.gzip_rest body)
      else if str_eq name "identity" || str_eq name ""
      then (some body, body)
      else (none, body)

  abbrev pub or_rest : Option Body × Body → Body × Bool
  or_rest (none, rest) = (rest, false)
  or_rest (some decoded, rest) = (decoded, true)

  -- The body after decompression, or what is left of it where that is not possible, and whether it
  -- is.
  unfoldable pub decompress : HttpProbe → Body → Body × Bool
  unfolding get_decompression_reader
  decompress http body =
      if not (str_eq http.compression "")
      then or_rest (get_decompression_reader http.compression body)
      else (body, true)

  unfoldable pub limit_body : HttpProbe → Body → Body
  limit_body http body =
      if ltb_ℤ (pos 0) http.body_size_limit then env.max_bytes http.body_size_limit body else body

  -- The body that the probe reads.
  abbrev pub read_body : HttpProbe → Body → Body
  read_body http body = limit_body http (decompress http body).0

  -- `io.ReadAll`
  abbrev pub read_all : Body → Option String
  read_all body = if body.failed then none else some body.content

module _ (fl : Float64) (env : ResponseEnv (fl.Num)) where
  open fl use {Num, of_int, parse}

  abbrev pub set_failed_due_to_regex : Bool → Probe Num Bool
  set_failed_due_to_regex success = do
    set_gauge "probe_failed_due_to_regex" [] (of_int (pos (if success then 0 else 1)))
    return success

  unfoldable pub match_headers : HttpProbe → Header → Bool → Probe Num Bool
  match_headers http header success =
      if success
        && (ltb 0 (length http.fail_if_header_matches_regexp)
            || ltb 0 (length http.fail_if_header_not_matches_regexp))
      then set_failed_due_to_regex (match_regular_expressions_on_headers env.matches header http)
      else return success

  unfoldable pub match_body : HttpProbe → Body → Bool → Probe Num Bool
  match_body http body success =
      if success
        && (ltb 0 (length http.fail_if_body_matches_regexp)
            || ltb 0 (length http.fail_if_body_not_matches_regexp))
      then set_failed_due_to_regex (match_regular_expressions env.matches (read_all env body) http)
      else return success

  abbrev pub set_last_modified : Option Num → Probe Num (Unit {0})
  set_last_modified none = return tt
  set_last_modified (some seconds) = do
    must_register "probe_http_last_modified_timestamp_seconds"
    set_gauge "probe_http_last_modified_timestamp_seconds" [] seconds

  -- What follows the reading of the body, and whether the whole response passes.
  unfoldable pub finish_response :
      HttpProbe → HttpResponse → Body → (errored success : Bool) → Probe Num (Bool × ℕ)
  finish_response http resp body errored success = do
    set_last_modified (env.parse_time (header_get "Last-Modified" resp.header))
    set_gauge "probe_http_version" [] (parse (trim_prefix "HTTP/" resp.proto)).0
    return (
      success
          && (errored || not body.failed)
          && is_valid_version http.valid_http_versions resp.proto,
      if errored then 0 else body.size,
    )

  -- The verdict on a response, and the number of bytes that were read. `errored` is that the
  -- client returned an error with the response, which it does for a redirect it does not follow.
  unfoldable pub check_response : HttpProbe → HttpResponse → (errored : Bool) → Probe Num (Bool × ℕ)
  check_response http resp errored = do
    success₁ ←
        match_headers http resp.header (is_valid_status http.valid_status_codes resp.status_code)
    let success₂ = if (decompress env http resp.body).1 then success₁ else false
    success₃ ← match_body http (read_body env http resp.body) success₂
    finish_response http resp (read_body env http resp.body) errored success₃

  -- The gauges of the certificates.
  unfoldable pub report_tls : ConnectionState → Probe Num (Unit {0})
  report_tls tls = do
    set_gauge "probe_http_ssl" [] (of_int (pos 1))
    report_connection fl env.unix env.fingerprint tls

  unfoldable pub check_tls : HttpProbe → Option ConnectionState → Bool → Probe Num Bool
  check_tls http none success = return (if http.fail_if_not_ssl && success then false else success)
  check_tls http (some tls) success = do
    report_tls tls
    return (if http.fail_if_ssl then false else success)
