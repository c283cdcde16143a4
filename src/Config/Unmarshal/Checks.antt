-- ===== src/Config/Unmarshal/Checks.antt =====
-- Exactly which configurations of the ICMP and DNS probes and of header matchers are accepted.
use big_blackbox_exporter.Base.{
  ℕ, ◌≤◌, ◌≡◌, ◌≢◌, ◌⊎◌, ◌↔◌, inl, inr, refl, ap, Bool, false, String, Option, some, none, str_eq,
  eq_iff, arith, Bool-cases,
}
use big_blackbox_exporter.Base.Int.{ℤ, pos, negsuc, ltb_ℤ}
use big_blackbox_exporter.Config.{
  HeaderMatch, DnsProbe, IcmpProbe, default_icmp_probe, default_dns_probe,
}
use big_blackbox_exporter.Config.Unmarshal.{
  Result, ok, regexp_missing, unmarshal_icmp_probe, unmarshal_dns_probe, unmarshal_header_match,
  >>-eq-ok, fail_if-eq-ok,
}

-- A TTL from 0 to 255.
abbrev pub IsTtl : ℤ → Type 0
IsTtl t = (n : ℕ) × (t ≡ pos n) × (n ≤ 255)

IsTtl-of_tests : (t : ℤ) → ltb_ℤ t (pos 0) ≡ false → ltb_ℤ (pos 255) t ≡ false → IsTtl t
IsTtl-of_tests (pos n) h k = (n, refl, ground arith)
IsTtl-of_tests (negsuc n) h k = cc

tests_of_ttl : (t : ℤ) → IsTtl t → (ltb_ℤ t (pos 0) ≡ false) × (ltb_ℤ (pos 255) t ≡ false)
tests_of_ttl (pos n) h = ground arith
tests_of_ttl (negsuc n) h = ground arith

-- The configuration of an ICMP probe is accepted exactly where its TTL lies in the range from 0 to
-- 255 and, on Windows, `dont_fragment` is not set.
pub unmarshal_icmp_probe_iff :
    (is_windows : Bool) (decode : IcmpProbe → Result IcmpProbe) (d : IcmpProbe)
    → decode default_icmp_probe ≡ ok d
    → (unmarshal_icmp_probe is_windows decode ≡ ok d)
      ↔ (((is_windows ≡ false) ⊎ (d.dont_fragment ≡ false)) × IsTtl d.ttl)
unfolding unmarshal_icmp_probe
unmarshal_icmp_probe_iff w decode d decoded = rw decoded (
  λ h.
      let (a, rest) = >>-eq-ok _ _ h in
      let (b, rest') = >>-eq-ok _ _ rest in
      let (c, _) = >>-eq-ok _ _ rest' in
      (
        ground (arith, fail_if-eq-ok _ _ a),
        IsTtl-of_tests d.ttl (fail_if-eq-ok _ _ b) (fail_if-eq-ok _ _ c),
      ),
  λ (flag, ttl). let (low, high) = tests_of_ttl d.ttl ttl in ground arith,
)

-- A DNS probe's configuration is accepted exactly where it has a query name, and its query class
-- and query type, each unless it is empty, are in the tables.
unmarshal_dns_probe_iff :
    (string_to_class string_to_type : String → Option ℕ) (decode : DnsProbe → Result DnsProbe)
    (d : DnsProbe)
    → decode default_dns_probe ≡ ok d
    → (unmarshal_dns_probe string_to_class string_to_type decode ≡ ok d) ↔ (
        (d.query_name ≢ "")
        × ((d.query_class ≡ "") ⊎ (string_to_class d.query_class ≢ none))
        × ((d.query_type ≡ "") ⊎ (string_to_type d.query_type ≢ none)))
unfolding unmarshal_dns_probe
unmarshal_dns_probe_iff cs ts decode d decoded =
    rw decoded
      (ground (arith, eq_iff d.query_name "", eq_iff d.query_class "", eq_iff d.query_type ""))

source_given : (source : String) → some source ≢ some "" → str_eq source "" ≡ false
source_given source h = elim (Bool-cases (str_eq source "")) [
  | inl same ↦ absurd (h (ap some ((eq_iff source "").0 same)))
  | inr other ↦ other
]

regexp_missing_iff : (o : Option String) → (regexp_missing o ≡ false) ↔ ((o ≢ none) × (o ≢ some ""))
regexp_missing_iff none = (λ h. cc, λ h. absurd (h.0 refl))
regexp_missing_iff (some source) =
    (λ h. (λ e. cc, λ e. ground (arith, eq_iff source "")), λ h. source_given source h.1)

-- A header matcher is accepted exactly where it has a header name and an expression that is not
-- empty.
pub unmarshal_header_match_iff :
    (decode : HeaderMatch → Result HeaderMatch) (zero_value d : HeaderMatch)
    → decode zero_value ≡ ok d
    → (unmarshal_header_match decode zero_value ≡ ok d)
      ↔ ((d.header ≢ "") × (d.regexp.regexp ≢ none) × (d.regexp.regexp ≢ some ""))
unfolding unmarshal_header_match
unmarshal_header_match_iff decode z d decoded =
    rw decoded (ground (arith, eq_iff d.header "", regexp_missing_iff d.regexp.regexp))
