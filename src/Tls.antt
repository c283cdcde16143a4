-- ===== src/Tls.antt =====
-- prober/tls.go: what a probe reports about the certificates of a TLS connection.
--
-- A `time.Time` is the signed number of nanoseconds since Go's zero time, which `pos 0` is, so
-- `IsZero` is the comparison with `pos 0` and `Before` is the order of integers. The names of a
-- certificate's subject and issuer are given as the texts that crypto/x509 makes of them.
pub mod Expiry
pub mod Report
mod Tests
use big_blackbox_exporter.Base.{
  ℕ, Bool, not, ◌&&◌, ◌||◌, List, [], ◌∷◌, String, Option, some, none, ◌==◌, if◌then◌else◌,
}
use big_blackbox_exporter.Base.Text.{join}
use big_blackbox_exporter.Base.Int.{ℤ, pos, eqb_ℤ, ltb_ℤ}

abbrev pub Time : Type 0
Time = ℤ

abbrev pub zero_time : Time
zero_time = pos 0

abbrev pub is_zero : Time → Bool
is_zero t = eqb_ℤ t zero_time

abbrev pub before : Time → Time → Bool
before = ltb_ℤ

-- The fields of `x509.Certificate` that the exporter reads.
pub record Certificate : Type 0 where
  pub raw : List ℕ
  pub subject : String
  pub issuer : String
  pub dns_names : List String
  pub not_after : Time

-- The fields of `tls.ConnectionState` that the exporter reads.
pub record ConnectionState : Type 0 where
  pub version : ℕ
  pub peer_certificates : List Certificate
  pub verified_chains : List (List Certificate)

-- The loop over certificates, which `getEarliestCertExpiry` and `getLastChainExpiry` both have.
unfoldable pub earliest_from : Time → List Certificate → Time
earliest_from earliest [] = earliest
earliest_from earliest (cert ∷ certs) =
    earliest_from
      (if (is_zero earliest || before cert.not_after earliest) && not (is_zero cert.not_after)
        then cert.not_after
        else earliest)
      certs

unfoldable pub get_earliest_cert_expiry : ConnectionState → Time
unfolding earliest_from
get_earliest_cert_expiry state = earliest_from zero_time state.peer_certificates

unfoldable pub last_from : Time → List (List Certificate) → Time
unfolding earliest_from
last_from last [] = last
last_from last (chain ∷ chains) =
    let earliest = earliest_from zero_time chain in
    last_from (if is_zero last || before last earliest then earliest else last) chains

unfoldable pub get_last_chain_expiry : ConnectionState → Time
unfolding last_from
get_last_chain_expiry state = last_from zero_time state.verified_chains

-- The element `[0]` of the peer's certificates, which panics where there is none.
abbrev pub leaf : List Certificate → Option Certificate
leaf [] = none
leaf (cert ∷ _) = some cert

abbrev on_leaf : (Certificate → String) → Option Certificate → Option String
on_leaf read none = none
on_leaf read (some cert) = some (read cert)

-- `fingerprint` is the hexadecimal SHA-256 sum.
unfoldable pub get_fingerprint : (fingerprint : List ℕ → String) → ConnectionState → Option String
get_fingerprint fingerprint state =
    on_leaf (λ cert. fingerprint cert.raw) (leaf state.peer_certificates)

unfoldable pub get_subject : ConnectionState → Option String
get_subject state = on_leaf (λ cert. cert.subject) (leaf state.peer_certificates)

unfoldable pub get_issuer : ConnectionState → Option String
get_issuer state = on_leaf (λ cert. cert.issuer) (leaf state.peer_certificates)

unfoldable pub get_dns_names : ConnectionState → Option String
unfolding join
get_dns_names state = on_leaf (λ cert. join "," cert.dns_names) (leaf state.peer_certificates)

-- The numbers are crypto/tls's `VersionTLS10` to `VersionTLS13`.
unfoldable pub get_tls_version : ConnectionState → String
get_tls_version state =
    if state.version == 0x0301
    then "TLS 1.0"
    else if state.version == 0x0302
    then "TLS 1.1"
    else if state.version == 0x0303
    then "TLS 1.2"
    else if state.version == 0x0304
    then "TLS 1.3"
    else "unknown"
