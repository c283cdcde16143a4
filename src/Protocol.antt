-- ===== src/Protocol.antt =====
-- prober/utils.go: `chooseProtocol`, which resolves a target to one IP address.
--
-- The two calls of net.Resolver are functions of the model's `Resolver`, and the time that the
-- resolution takes is an input, which the deferred function adds to its gauge and returns. Logging
-- is left out.
pub mod Choice
pub mod Total
mod Tests
use big_blackbox_exporter.Base.{
  ℕ, Bool, true, false, not, ◌||◌, List, [], ◌∷◌, String, Option, some, none, str_eq, if◌then◌else◌,
}
use big_blackbox_exporter.Base.Int.{ℤ, pos}
use big_blackbox_exporter.Float64.{Float64}
use big_blackbox_exporter.Ip.{Ip, IpAddr, is_v4, ip_hash}
use big_blackbox_exporter.Metrics.{
  Registry, Outcome, done, Probe, ◌>>=◌, ◌>>◌, return, must_register, set_gauge, add_gauge,
}

pub data Lookup (A : Type 0) : Type 0 where
  found : List A → Lookup A
  lookup_error : String → Lookup A

pub record Resolver : Type 0 where
  -- `LookupIP(ctx, network, host)`
  pub lookup_ip : String → String → Lookup Ip
  -- `LookupIPAddr(ctx, host)`
  pub lookup_ip_addr : String → Lookup IpAddr

-- The named results of `chooseProtocol`; a nil `ip` may come with a nil `err`.
pub record Chosen (V : Type 0) : Type 0 where
  pub ip : Option IpAddr
  pub lookup_time : V
  pub err : Option String

-- The loop over the addresses ends with one of the wanted family, or with the last one of the
-- other family as the fallback.
pub data Search : Type 0 where
  wanted : IpAddr → Search
  fallback : Option IpAddr → Search

-- `To4() != nil` for "ip4", `To4() == nil` for "ip6"
abbrev pub is_wanted : (v4 : Bool) → IpAddr → Bool
is_wanted true addr = is_v4 addr.ip
is_wanted false addr = not (is_v4 addr.ip)

unfoldable pub search_ips : (v4 : Bool) → Option IpAddr → List IpAddr → Search
search_ips v4 last [] = fallback last
search_ips v4 last (addr ∷ addrs) =
    if is_wanted v4 addr then wanted addr else search_ips v4 (some addr) addrs

module _ (fl : Float64) where
  open fl use {Num, of_int, add}

  -- `protocolToGauge`
  abbrev pub protocol_to_gauge : (v4 : Bool) → Num
  protocol_to_gauge v4 = of_int (pos (if v4 then 4 else 6))

  -- The two gauges that are set for the address that is returned.
  abbrev pub report_ip : (v4 : Bool) → Ip → Probe Num (Unit {0})
  report_ip v4 ip = do
    set_gauge "probe_ip_protocol" [] (protocol_to_gauge v4)
    set_gauge "probe_ip_addr_hash" [] (of_int (pos (ip_hash ip)))

  abbrev pub chosen : IpAddr → Num → Chosen Num
  chosen addr time = record { ip = some addr; lookup_time = time; err = none }

  abbrev pub not_chosen : Option String → Num → Chosen Num
  not_chosen err time = record { ip = none; lookup_time = time; err = err }

  abbrev pub ip4_or_ip6 : Bool → String
  ip4_or_ip6 v4 = if v4 then "ip4" else "ip6"

  -- `LookupIP` for one family: its first address is returned.
  abbrev pub choose_only : (v4 : Bool) → Num → Lookup Ip → Probe Num (Chosen Num)
  choose_only v4 time (lookup_error e) = return (not_chosen (some e) time)
  choose_only v4 time (found []) = return (not_chosen none time)
  choose_only v4 time (found (ip ∷ _)) = do
    report_ip v4 ip
    return (chosen (record { ip = ip; zone = "" }) time)

  abbrev pub finish_search : (v4 : Bool) → Num → Search → Probe Num (Chosen Num)
  finish_search v4 time (wanted addr) = do report_ip v4 addr.ip; return (chosen addr time)
  finish_search v4 time (fallback none) =
      return (not_chosen (some "unable to find ip; no fallback") time)
  finish_search v4 time (fallback (some addr)) = do
    report_ip (not v4) addr.ip
    return (chosen addr time)

  -- `LookupIPAddr`: an address of the family, or the fallback.
  abbrev pub choose_with_fallback : (v4 : Bool) → Num → Lookup IpAddr → Probe Num (Chosen Num)
  choose_with_fallback v4 time (lookup_error e) = return (not_chosen (some e) time)
  choose_with_fallback v4 time (found addrs) = finish_search v4 time (search_ips v4 none addrs)

  unfoldable pub choose_protocol :
      Resolver
      → (lookup_time : Num) (ip_protocol : String) (ip_protocol_fallback : Bool) (target : String)
      → Probe Num (Chosen Num)
  unfolding search_ips must_register
  choose_protocol net lookup_time ip_protocol ip_protocol_fallback target = do
    must_register "probe_ip_protocol"
    must_register "probe_dns_lookup_time_seconds"
    must_register "probe_ip_addr_hash"
    let v4 = not (str_eq ip_protocol "ip6" || str_eq ip_protocol "")
    result ←
        if not ip_protocol_fallback
        then choose_only v4 lookup_time (net.lookup_ip (ip4_or_ip6 v4) target)
        else choose_with_fallback v4 lookup_time (net.lookup_ip_addr target)
    add_gauge add (of_int (pos 0)) "probe_dns_lookup_time_seconds" [] lookup_time
    return result
