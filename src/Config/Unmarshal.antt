-- ===== src/Config/Unmarshal.antt =====
-- config/config.go: the `UnmarshalYAML` methods. Each sets the defaults, lets gopkg.in/yaml.v3 fill
-- the value in, which is the parameter `decode`, and then checks it. The methods of Config, Module,
-- TCPProbe, GRPCProbe, DNSRRValidator and QueryResponse do no more than that.
pub mod Http
pub mod Checks
use big_blackbox_exporter.Base.{
  ℕ, ◌-◌, ◌^◌, ◌≡◌, refl, Bool, true, false, not, ◌&&◌, ◌||◌, List, [], ◌∷◌, String, Option, some,
  none, str_eq, if◌then◌else◌,
}
use big_blackbox_exporter.Base.Text.{canonical_mime_header_key}
use big_blackbox_exporter.Base.Int.{ℤ, pos, ltb_ℤ, eqb_ℤ}
use big_blackbox_exporter.Config.{
  HttpClientConfig, Regexp, HeaderMatch, HttpProbe, DnsProbe, IcmpProbe, default_http_probe,
  default_dns_probe, default_icmp_probe, Module, default_module, TcpProbe, default_tcp_probe,
  GrpcProbe, default_grpc_probe, Config, QueryResponse, DnsRrValidator,
}
use big_blackbox_exporter.Config.Encoding.{Quality, is_compression_accept_encoding_valid}

pub data Result (A : Type 0) : Type 0 where
  ok : A → Result A
  err : String → Result A

infixl 5 ◌>>=◌ ◌>>◌
abbrev pub ◌>>=◌ : {A B : Type 0} → Result A → (A → Result B) → Result B
ok a >>= f = f a
err e >>= f = err e

abbrev pub ◌>>◌ : {B : Type 0} → Result (Unit {0}) → Result B → Result B
ok _ >> k = k
err e >> k = err e

-- `if failed { return errors.New(message) }`
abbrev pub fail_if : Bool → String → Result (Unit {0})
fail_if true message = err message
fail_if false message = ok tt

-- `if err != nil { return err }`
abbrev pub check : Option String → Result (Unit {0})
check none = ok tt
check (some e) = err e

pub >>-eq-ok :
    {B : Type 0} (m : Result (Unit {0})) (k : Result B) {b : B}
    → (m >> k) ≡ ok b
    → (m ≡ ok tt) × (k ≡ ok b)
>>-eq-ok (ok tt) k h = (refl, h)
>>-eq-ok (err e) k h = cc

pub fail_if-eq-ok : (b : Bool) (message : String) → fail_if b message ≡ ok tt → b ≡ false
fail_if-eq-ok true message h = cc
fail_if-eq-ok false message h = refl

pub check-eq-ok : (o : Option String) → check o ≡ ok tt → o ≡ none
check-eq-ok none h = refl
check-eq-ok (some e) h = cc

pub ok_injective : {A : Type 0} {a b : A} → ok a ≡ ok b → a ≡ b
ok_injective h = cc

-- `unmarshal((*plain)(s))` on a value that is set to the defaults.
abbrev pub unmarshal_plain : {A : Type 0} → A → (A → Result A) → Result A
unmarshal_plain defaults decode = decode defaults

unfoldable pub unmarshal_module : HttpClientConfig → (Module → Result Module) → Result Module
unmarshal_module client decode = unmarshal_plain (default_module client) decode

unfoldable pub unmarshal_tcp_probe : (TcpProbe → Result TcpProbe) → Result TcpProbe
unmarshal_tcp_probe decode = unmarshal_plain default_tcp_probe decode

unfoldable pub unmarshal_grpc_probe : (GrpcProbe → Result GrpcProbe) → Result GrpcProbe
unmarshal_grpc_probe decode = unmarshal_plain default_grpc_probe decode

unfoldable pub unmarshal_config : (Config → Result Config) → Result Config
unmarshal_config decode = unmarshal_plain (record { modules = [] }) decode

-- The value that is filled in is the caller's, with the zero values.
unfoldable pub unmarshal_query_response :
    QueryResponse → (QueryResponse → Result QueryResponse) → Result QueryResponse
unmarshal_query_response s decode = unmarshal_plain s decode

unfoldable pub unmarshal_dns_rr_validator :
    DnsRrValidator → (DnsRrValidator → Result DnsRrValidator) → Result DnsRrValidator
unmarshal_dns_rr_validator s decode = unmarshal_plain s decode

-- `math.MaxInt64`
abbrev pub max_int64 : ℕ
max_int64 = 2 ^ 63 - 1

abbrev pub clamp_limit : ℤ → ℤ
clamp_limit limit =
    if ltb_ℤ limit (pos 0) || eqb_ℤ limit (pos max_int64) then pos (max_int64 - 1) else limit

abbrev pub follow : Option Bool → HttpClientConfig → HttpClientConfig
follow none client = client
follow (some no_follow) client = record client { follow_redirects = not no_follow }

-- Each Accept-Encoding header has to suit the compression.
unfoldable pub check_headers : Quality → String → List (String × String) → Result (Unit {0})
check_headers ql compression [] = ok tt
check_headers ql compression ((key, value) ∷ headers) =
    if str_eq (canonical_mime_header_key key) "Accept-Encoding"
      && not (is_compression_accept_encoding_valid ql compression value)
    then err "invalid configuration"
    else check_headers ql compression headers

unfoldable pub unmarshal_http_probe :
    Quality
    → (default_client : HttpClientConfig) → (validate : HttpClientConfig → Option String)
    → (decode : HttpProbe → Result HttpProbe) → Result HttpProbe
unfolding check_headers
unmarshal_http_probe ql default_client validate decode = do
  d ← decode (default_http_probe default_client)
  let s : HttpProbe = record d { body_size_limit = clamp_limit d.body_size_limit }
  check (validate s.http_client_config)
  let s' : HttpProbe = record s {
    http_client_config = follow s.no_follow_redirects s.http_client_config;
  }
  fail_if (not (str_eq s'.body "") && not (str_eq s'.body_file ""))
      "setting body and body_file both are not allowed"
  check_headers ql s'.compression s'.headers
  ok s'

abbrev pub is_unknown : Option ℕ → Bool
is_unknown none = true
is_unknown (some _) = false

-- `string_to_class` and `string_to_type` tell which names the tables of miekg/dns have.
unfoldable pub unmarshal_dns_probe :
    (string_to_class string_to_type : String → Option ℕ)
    → (decode : DnsProbe → Result DnsProbe) → Result DnsProbe
unmarshal_dns_probe string_to_class string_to_type decode = do
  s ← decode default_dns_probe
  fail_if (str_eq s.query_name "") "query name must be set for DNS module"
  fail_if (not (str_eq s.query_class "") && is_unknown (string_to_class s.query_class))
      "query class is not valid"
  fail_if (not (str_eq s.query_type "") && is_unknown (string_to_type s.query_type))
      "query type is not valid"
  ok s

-- `is_windows` is `runtime.GOOS == "windows"`.
unfoldable pub unmarshal_icmp_probe :
    (is_windows : Bool) → (decode : IcmpProbe → Result IcmpProbe) → Result IcmpProbe
unmarshal_icmp_probe is_windows decode = do
  s ← decode default_icmp_probe
  fail_if (is_windows && s.dont_fragment) "\"dont_fragment\" is not supported on windows platforms"
  fail_if (ltb_ℤ s.ttl (pos 0)) "\"ttl\" cannot be negative"
  fail_if (ltb_ℤ (pos 255) s.ttl) "\"ttl\" cannot exceed 255"
  ok s

-- `s.Regexp.Regexp == nil || s.Regexp.Regexp.String() == ""`
abbrev pub regexp_missing : Option String → Bool
regexp_missing none = true
regexp_missing (some source) = str_eq source ""

unfoldable pub unmarshal_header_match :
    (decode : HeaderMatch → Result HeaderMatch) → HeaderMatch → Result HeaderMatch
unmarshal_header_match decode zero_value = do
  s ← decode zero_value
  fail_if (str_eq s.header "") "header name must be set for HTTP header matchers"
  fail_if (regexp_missing s.regexp.regexp) "regexp must be set for HTTP header matchers"
  ok s
