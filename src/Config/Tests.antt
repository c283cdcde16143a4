-- ===== src/Config/Tests.antt =====
-- The validation of configurations at concrete values, and the theorems there.
use big_blackbox_exporter.Base.{
  ℕ, ◌≡◌, refl, Bool, true, false, not, ◌||◌, List, [], ◌∷◌, String, Option, some, none, str_eq,
  ◌⊎◌, ◌≢◌, if◌then◌else◌, any, arith, ltb,
}
use big_blackbox_exporter.Base.Int.{ℤ, pos}
use big_blackbox_exporter.Config.{HttpClientConfig, HttpProbe, Config, default_http_probe, Regexp}
use big_blackbox_exporter.Config.Encoding.{Quality, encodings, is_compression_accept_encoding_valid}
use big_blackbox_exporter.Config.Encoding.Soundness.{
  IsWeakOrder, accepts, is_compression_accept_encoding_valid-eq-any,
}
use big_blackbox_exporter.Config.Unmarshal.{Result, ok, err, unmarshal_http_probe, max_int64}
use big_blackbox_exporter.Config.Unmarshal.Http.{IsAccepted, unmarshal_http_probe-IsAccepted}
use big_blackbox_exporter.Config.Patterns.{
  unmarshal_regexp, marshal_regexp, unmarshal_regexp-marshal_regexp,
}
use big_blackbox_exporter.Config.Reload.{new_safe_config}
use big_blackbox_exporter.Config.Reload.Latest.{reload_all, latest, last_success, reload_all-latest}

-- Thousandths stand for float32 values.
abbrev parse_half : String → ℕ × Bool
parse_half s = if str_eq s "0.5" then (500, true) else (0, str_eq s "0.0")

abbrev thousandths : Quality
thousandths = record {
  Num = ℕ;
  zero = 0;
  one = 1000;
  lt = ltb;
  Wide = ℕ;
  parse_float = parse_half;
  times_1000 = λ q. q;
  round = λ q. q;
  over_1000 = λ q. q;
  to_float32 = λ q. q;
}

thousandths-IsWeakOrder : IsWeakOrder thousandths
thousandths-IsWeakOrder = record {
  asymm = λ a b h. ground arith;
  trans = λ a b c h k. ground arith;
}

valid : String → String → Bool
unfolding is_compression_accept_encoding_valid
valid = is_compression_accept_encoding_valid thousandths

valid_tests :
    (valid "gzip" "compress, gzip;q=0.5" ≡ true)
    × (valid "gzip" "br, *;q=0.0" ≡ false)
    × (valid "gzip" "gzip;q=0.0, *" ≡ true)
    × (valid "gzip" "" ≡ true)
unfolding valid
valid_tests = (refl, refl, refl, refl)

is_compression_accept_encoding_valid-eq-any_example :
    is_compression_accept_encoding_valid thousandths "gzip" "br, gzip;q=0.5" ≡ (
      str_eq "gzip" ""
      || str_eq "br, gzip;q=0.5" ""
      || any (accepts thousandths "gzip") (encodings thousandths "br, gzip;q=0.5"))
is_compression_accept_encoding_valid-eq-any_example =
    is_compression_accept_encoding_valid-eq-any thousandths thousandths-IsWeakOrder "gzip"
      "br, gzip;q=0.5"

abbrev client : HttpClientConfig
client = record {
  tls_config = record { server_name = "" };
  follow_redirects = true;
  proxy_url = none;
  proxy_from_environment = false;
}

-- A configuration that is decoded with an unlimited size and the old flag.
abbrev decoded : HttpProbe
decoded = record (default_http_probe client) {
  body_size_limit = pos max_int64;
  no_follow_redirects = some true;
  body = "x";
}

abbrev adjusted : HttpProbe
adjusted = record decoded {
  body_size_limit = pos 9223372036854775806;
  http_client_config = record client { follow_redirects = false };
}

abbrev decode : HttpProbe → Result HttpProbe
decode _ = ok decoded

unmarshal_adjusts : unmarshal_http_probe thousandths client (λ _. none) decode ≡ ok adjusted
unfolding unmarshal_http_probe
unmarshal_adjusts = refl

unmarshal_http_probe-IsAccepted_example : IsAccepted thousandths (λ _. none) decoded adjusted
unmarshal_http_probe-IsAccepted_example =
    unmarshal_http_probe-IsAccepted thousandths client (λ _. none) decode decoded adjusted refl refl
      unmarshal_adjusts

abbrev classes : String → Option ℕ
classes name = if str_eq name "IN" then some 1 else none

abbrev reloads : List (Result Config × ℤ)
reloads = (ok (record { modules = [] }), pos 5) ∷ (err "bad", pos 9) ∷ []

reload_all-latest_example :
    let sc = new_safe_config (pos 0) in
    ((reload_all reloads sc).config ≡ (latest (sc.config, sc.config_reload_seconds) reloads).0)
    × ((reload_all reloads sc).config_reload_seconds
        ≡ (latest (sc.config, sc.config_reload_seconds) reloads).1)
    × ((reload_all reloads sc).config_reload_success
        ≡ last_success sc.config_reload_success reloads)
reload_all-latest_example = reload_all-latest reloads (new_safe_config (pos 0))

-- Every text but the open bracket compiles.
abbrev compiles : String → Bool
compiles s = not (str_eq s "(")

abbrev decoded_ok : Regexp
decoded_ok = record { regexp = some "^ok"; original = "^ok" }

unmarshal_regexp-marshal_regexp_example :
    ((◌≡◌ {A = String} "^ok" "") × (marshal_regexp decoded_ok ≡ none))
    ⊎ ((◌≢◌ {A = String} "^ok" "")
        × (text : String) × (marshal_regexp decoded_ok ≡ some text)
        × (text ≡ "^ok")
        × (unmarshal_regexp compiles (ok text) ≡ ok decoded_ok))
unfolding unmarshal_regexp
unmarshal_regexp-marshal_regexp_example =
    unmarshal_regexp-marshal_regexp compiles "^ok" decoded_ok refl
