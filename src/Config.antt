-- ===== src/Config.antt =====
-- config/config.go: the configuration of the exporter's modules and its defaults.
--
-- An `int` and a `time.Duration` (in nanoseconds) are integers. Of the records of
-- prometheus/common/config the fields that the exporter reads or writes are listed; `proxy_url`
-- is the URL of the proxy, if one is set. A map is an association list.
pub mod Unmarshal
pub mod Encoding
pub mod Patterns
pub mod Reload
mod Tests
use big_blackbox_exporter.Base.{ℕ, Bool, true, false, List, [], String, Option, some, none}
use big_blackbox_exporter.Base.Int.{ℤ, pos}

-- `config.TLSConfig`
pub record TlsConfig : Type 0 where
  pub server_name : String

-- `config.HTTPClientConfig`
pub record HttpClientConfig : Type 0 where
  pub tls_config : TlsConfig
  pub follow_redirects : Bool
  pub proxy_url : Option String
  pub proxy_from_environment : Bool

-- `regexp` is nil in a value that was not decoded; otherwise it is given by its source.
pub record Regexp : Type 0 where
  pub regexp : Option String
  pub original : String

pub record HeaderMatch : Type 0 where
  pub header : String
  pub regexp : Regexp
  pub allow_missing : Bool

pub record HttpProbe : Type 0 where
  pub valid_status_codes : List ℤ
  pub valid_http_versions : List String
  pub ip_protocol : String
  pub ip_protocol_fallback : Bool
  pub skip_resolve_phase_with_proxy : Bool
  pub no_follow_redirects : Option Bool
  pub fail_if_ssl : Bool
  pub fail_if_not_ssl : Bool
  pub method : String
  pub headers : List (String × String)
  pub fail_if_body_matches_regexp : List Regexp
  pub fail_if_body_not_matches_regexp : List Regexp
  pub fail_if_header_matches_regexp : List HeaderMatch
  pub fail_if_header_not_matches_regexp : List HeaderMatch
  pub body : String
  pub body_file : String
  pub http_client_config : HttpClientConfig
  pub compression : String
  pub body_size_limit : ℤ

pub record GrpcProbe : Type 0 where
  pub service : String
  pub tls : Bool
  pub tls_config : TlsConfig
  pub ip_protocol_fallback : Bool
  pub preferred_ip_protocol : String

pub record QueryResponse : Type 0 where
  pub expect : Regexp
  pub send : String
  pub start_tls : Bool

pub record TcpProbe : Type 0 where
  pub ip_protocol : String
  pub ip_protocol_fallback : Bool
  pub source_ip_address : String
  pub query_response : List QueryResponse
  pub tls : Bool
  pub tls_config : TlsConfig

pub record IcmpProbe : Type 0 where
  pub ip_protocol : String
  pub ip_protocol_fallback : Bool
  pub source_ip_address : String
  pub payload_size : ℤ
  pub dont_fragment : Bool
  pub ttl : ℤ

pub record DnsRrValidator : Type 0 where
  pub fail_if_matches_regexp : List String
  pub fail_if_all_match_regexp : List String
  pub fail_if_not_matches_regexp : List String
  pub fail_if_none_matches_regexp : List String

-- `valid_rcodes` is nil where it was not given.
pub record DnsProbe : Type 0 where
  pub ip_protocol : String
  pub ip_protocol_fallback : Bool
  pub dns_over_tls : Bool
  pub tls_config : TlsConfig
  pub source_ip_address : String
  pub transport_protocol : String
  pub query_class : String
  pub query_name : String
  pub query_type : String
  pub recursion : Bool
  pub valid_rcodes : Option (List String)
  pub validate_answer : DnsRrValidator
  pub validate_authority : DnsRrValidator
  pub validate_additional : DnsRrValidator

-- The probes for Ethereum, Bitcoin, JSON and GraphQL have empty configurations.
pub record Module : Type 0 where
  pub prober : String
  pub timeout : ℤ
  pub http : HttpProbe
  pub tcp : TcpProbe
  pub icmp : IcmpProbe
  pub dns : DnsProbe
  pub grpc : GrpcProbe

pub record Config : Type 0 where
  pub modules : List (String × Module)

abbrev pub empty_tls : TlsConfig
empty_tls = record { server_name = "" }

abbrev pub default_http_probe : HttpClientConfig → HttpProbe
default_http_probe default_client = record {
  valid_status_codes = [];
  valid_http_versions = [];
  ip_protocol = "";
  ip_protocol_fallback = true;
  skip_resolve_phase_with_proxy = false;
  no_follow_redirects = none;
  fail_if_ssl = false;
  fail_if_not_ssl = false;
  method = "";
  headers = [];
  fail_if_body_matches_regexp = [];
  fail_if_body_not_matches_regexp = [];
  fail_if_header_matches_regexp = [];
  fail_if_header_not_matches_regexp = [];
  body = "";
  body_file = "";
  http_client_config = default_client;
  compression = "";
  body_size_limit = pos 0;
}

abbrev pub default_grpc_probe : GrpcProbe
default_grpc_probe = record {
  service = "";
  tls = false;
  tls_config = empty_tls;
  ip_protocol_fallback = true;
  preferred_ip_protocol = "";
}

abbrev pub default_tcp_probe : TcpProbe
default_tcp_probe = record {
  ip_protocol = "";
  ip_protocol_fallback = true;
  source_ip_address = "";
  query_response = [];
  tls = false;
  tls_config = empty_tls;
}

abbrev pub default_icmp_ttl : ℤ
default_icmp_ttl = pos 64

abbrev pub default_icmp_probe : IcmpProbe
default_icmp_probe = record {
  ip_protocol = "";
  ip_protocol_fallback = true;
  source_ip_address = "";
  payload_size = pos 0;
  dont_fragment = false;
  ttl = default_icmp_ttl;
}

abbrev pub empty_validator : DnsRrValidator
empty_validator = record {
  fail_if_matches_regexp = [];
  fail_if_all_match_regexp = [];
  fail_if_not_matches_regexp = [];
  fail_if_none_matches_regexp = [];
}

abbrev pub default_dns_probe : DnsProbe
default_dns_probe = record {
  ip_protocol = "";
  ip_protocol_fallback = true;
  dns_over_tls = false;
  tls_config = empty_tls;
  source_ip_address = "";
  transport_protocol = "";
  query_class = "";
  query_name = "";
  query_type = "";
  recursion = true;
  valid_rcodes = none;
  validate_answer = empty_validator;
  validate_authority = empty_validator;
  validate_additional = empty_validator;
}

-- `DefaultModule` sets no gRPC default: a module without a grpc section has the zero values.
abbrev pub default_module : HttpClientConfig → Module
default_module default_client = record {
  prober = "";
  timeout = pos 0;
  http = default_http_probe default_client;
  tcp = default_tcp_probe;
  icmp = default_icmp_probe;
  dns = default_dns_probe;
  grpc = record default_grpc_probe { ip_protocol_fallback = false };
}
