-- ===== src/Protocol/Total.antt =====
-- prober/utils.go: `chooseProtocol` ends without a panic, and with an address or an error.
use big_blackbox_exporter.Base.{
  ◌≡◌, ◌≢◌, refl, Bool, true, false, not, ◌||◌, List, [], ◌∷◌, String, Option, some, none, str_eq,
  if◌then◌else◌,
}
use big_blackbox_exporter.Base.Int.{pos}
use big_blackbox_exporter.Float64.{Float64}
use big_blackbox_exporter.Metrics.{
  Registry, Probe, return, is_nil, contains, must_register, add_gauge, ◌>>=◌, ◌>>◌,
}
use big_blackbox_exporter.Metrics.Inversion.{Ends}
use big_blackbox_exporter.Metrics.Ending.{Ends-bind, Ends-register}
use big_blackbox_exporter.Ip.{Ip, IpAddr}
use big_blackbox_exporter.Protocol.{
  Resolver, Lookup, found, lookup_error, Chosen, Search, wanted, fallback, search_ips, ip4_or_ip6,
  choose_only, finish_search, choose_with_fallback, choose_protocol,
}

-- A lookup of `LookupIP` without an error finds an address.
abbrev pub Answers : Resolver → Type 0
Answers net = (network host : String) → net.lookup_ip network host ≢ found []

-- The address that is chosen, by the lookups alone.
abbrev pub first_ip : Lookup Ip → Option IpAddr
first_ip (found (ip ∷ _)) = some (record { ip = ip; zone = "" })
first_ip _ = none

abbrev pub search_result : Search → Option IpAddr
search_result (wanted addr) = some addr
search_result (fallback last) = last

abbrev pub found_ip : (v4 : Bool) → Lookup IpAddr → Option IpAddr
found_ip v4 (lookup_error e) = none
found_ip v4 (found addrs) = search_result (search_ips v4 none addrs)

abbrev pub prefers_v4 : (protocol : String) → Bool
prefers_v4 protocol = not (str_eq protocol "ip6" || str_eq protocol "")

abbrev pub ip_text : Bool → String
ip_text v4 = if v4 then "ip4" else "ip6"

abbrev pub resolved_ip :
    Resolver → (protocol : String) → (with_fallback : Bool) → (target : String) → Option IpAddr
resolved_ip net protocol with_fallback target =
    if not with_fallback
    then first_ip (net.lookup_ip (ip_text (prefers_v4 protocol)) target)
    else found_ip (prefers_v4 protocol) (net.lookup_ip_addr target)

module _ (fl : Float64) where
  open fl use {Num, of_int, add}

  -- An address comes without an error, and none with one.
  abbrev pub Chose : Option IpAddr → Chosen Num → Type 0
  Chose none c = is_nil c.err ≡ false
  Chose (some addr) c = (is_nil c.err ≡ true) × (c.ip ≡ some addr)

  -- This address is chosen, and nothing more is registered.
  pub record IsChosen (names : List String) (o : Option IpAddr) (c : Chosen Num)
      (reg : Registry Num) : Type 0 where
    pub same_names : reg.registered ≡ names
    pub chose : Chose o c

  choose_only-IsChosen :
      (v4 : Bool) (time : Num) (l : Lookup Ip) (reg : Registry Num)
      → l ≢ found []
      → Ends (IsChosen reg.registered (first_ip l)) (choose_only fl v4 time l reg)
  choose_only-IsChosen v4 time (lookup_error e) reg some_ip = record {
    same_names = refl;
    chose = refl;
  }
  choose_only-IsChosen v4 time (found []) reg some_ip = absurd (some_ip refl)
  choose_only-IsChosen v4 time (found (ip ∷ _)) reg some_ip = record {
    same_names = refl;
    chose = (refl, refl);
  }

  finish_search-IsChosen :
      (v4 : Bool) (time : Num) (s : Search) (reg : Registry Num)
      → Ends (IsChosen reg.registered (search_result s)) (finish_search fl v4 time s reg)
  finish_search-IsChosen v4 time (wanted addr) reg = record {
    same_names = refl;
    chose = (refl, refl);
  }
  finish_search-IsChosen v4 time (fallback none) reg = record { same_names = refl; chose = refl }
  finish_search-IsChosen v4 time (fallback (some addr)) reg = record {
    same_names = refl;
    chose = (refl, refl);
  }

  choose_with_fallback-IsChosen :
      (v4 : Bool) (time : Num) (l : Lookup IpAddr) (reg : Registry Num)
      → Ends (IsChosen reg.registered (found_ip v4 l)) (choose_with_fallback fl v4 time l reg)
  choose_with_fallback-IsChosen v4 time (lookup_error e) reg = record {
    same_names = refl;
    chose = refl;
  }
  choose_with_fallback-IsChosen v4 time (found addrs) reg =
      finish_search-IsChosen v4 time (search_ips v4 none addrs) reg

  choose-IsChosen :
      (only : Bool) (v4 : Bool) (time : Num) (l : Lookup Ip) (all : Lookup IpAddr)
      (reg : Registry Num)
      → l ≢ found []
      → Ends
          (IsChosen reg.registered (if only then first_ip l else found_ip v4 all))
          ((if only then choose_only fl v4 time l else choose_with_fallback fl v4 time all) reg)
  choose-IsChosen true v4 time l all reg some_ip = choose_only-IsChosen v4 time l reg some_ip
  choose-IsChosen false v4 time l all reg some_ip = choose_with_fallback-IsChosen v4 time all reg

  abbrev and_registered : String → Registry Num → Registry Num
  and_registered name reg = record reg { registered = name ∷ reg.registered }

  -- The names of the three collectors, where they are new.
  abbrev pub with_chosen : List String → List String
  with_chosen names =
      "probe_ip_addr_hash" ∷ "probe_dns_lookup_time_seconds" ∷ "probe_ip_protocol" ∷ names

  pub record IsNew (names : List String) : Type 0 where
    pub protocol : contains "probe_ip_protocol" names ≡ false
    pub lookup_time : contains "probe_dns_lookup_time_seconds" names ≡ false
    pub hash : contains "probe_ip_addr_hash" names ≡ false

  pub choose_protocol-IsChosen :
      (net : Resolver) (time : Num) (protocol : String) (with_fallback : Bool) (target : String)
      (reg : Registry Num)
      → Answers net
      → IsNew reg.registered
      → Ends
          (IsChosen (with_chosen reg.registered) (resolved_ip net protocol with_fallback target))
          (choose_protocol fl net time protocol with_fallback target reg)
  unfolding choose_protocol
  choose_protocol-IsChosen net time protocol with_fallback target reg answers new =
      Ends-register P "probe_ip_protocol"
        (λ _. must_register "probe_dns_lookup_time_seconds" >> after_lookup) reg new.protocol
        (Ends-register P "probe_dns_lookup_time_seconds" (λ _. after_lookup) reg₁ new.lookup_time
          (Ends-register P "probe_ip_addr_hash" (λ _. choose >>= counted) reg₂ new.hash
            (Ends-bind P P (choose reg₃) counted
              (choose-IsChosen (not with_fallback) v4 time only all reg₃ (answers _ target))
              λ chosen reg' c. record { same_names = c.same_names; chose = c.chose })))
    where
      P : Chosen Num → Registry Num → Type 0
      P = IsChosen (with_chosen reg.registered) (resolved_ip net protocol with_fallback target)

      reg₁ : Registry Num
      reg₁ = and_registered "probe_ip_protocol" reg

      reg₂ : Registry Num
      reg₂ = and_registered "probe_dns_lookup_time_seconds" reg₁

      reg₃ : Registry Num
      reg₃ = and_registered "probe_ip_addr_hash" reg₂

      v4 : Bool
      v4 = not (str_eq protocol "ip6" || str_eq protocol "")

      only : Lookup Ip
      only = net.lookup_ip (ip4_or_ip6 fl v4) target

      all : Lookup IpAddr
      all = net.lookup_ip_addr target

      choose : Probe Num (Chosen Num)
      choose =
          if not with_fallback
          then choose_only fl v4 time only
          else choose_with_fallback fl v4 time all

      counted : Chosen Num → Probe Num (Chosen Num)
      counted chosen =
          add_gauge add (of_int (pos 0)) "probe_dns_lookup_time_seconds" [] time >> return chosen

      after_lookup : Probe Num (Chosen Num)
      after_lookup = must_register "probe_ip_addr_hash" >> (choose >>= counted)
