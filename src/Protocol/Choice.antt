-- ===== src/Protocol/Choice.antt =====
-- Which address `chooseProtocol` chooses, and what its gauges say of it.
use big_blackbox_exporter.Base.{
  ◌≡◌, ◌≢◌, refl, ap, Bool, true, false, not, ◌||◌, List, [], ◌∷◌, ◌++◌, String, Option, some, none,
  str_eq, if◌then◌else◌, arith, All, Bool-cases, inl, inr,
}
use big_blackbox_exporter.Base.Int.{pos}
use big_blackbox_exporter.Float64.{Float64}
use big_blackbox_exporter.Ip.{Ip, IpAddr, is_v4, ip_hash}
use big_blackbox_exporter.Metrics.{
  Registry, Outcome, done, panic, contains, value_of, add_gauge, return, and_then, ◌>>◌,
}
use big_blackbox_exporter.Protocol.{
  Lookup, found, lookup_error, Resolver, Chosen, Search, wanted, fallback, is_wanted, search_ips,
  report_ip, choose_only, finish_search, choose_with_fallback, choose_protocol, ip4_or_ip6,
}

abbrev pub last_of : Option IpAddr → List IpAddr → Option IpAddr
last_of last [] = last
last_of last (addr ∷ addrs) = last_of (some addr) addrs

-- The first address of the wanted family, or else the last address.
abbrev pub Finds : Bool → Option IpAddr → List IpAddr → Search → Type 0
Finds v4 last addrs (wanted addr) =
    (before after : List IpAddr) × (addrs ≡ before ++ addr ∷ after)
    × All (λ a. is_wanted v4 a ≡ false) before
    × (is_wanted v4 addr ≡ true)
Finds v4 last addrs (fallback o) =
    All (λ a. is_wanted v4 a ≡ false) addrs × (o ≡ last_of last addrs)

Finds-cons :
    (v4 : Bool) (last : Option IpAddr) (addr : IpAddr) (addrs : List IpAddr) (s : Search)
    → is_wanted v4 addr ≡ false
    → Finds v4 (some addr) addrs s
    → Finds v4 last (addr ∷ addrs) s
Finds-cons v4 last addr addrs (wanted a) other (before, after, e, none_before, h) =
    (addr ∷ before, after, ap (λ l. addr ∷ l) e, (other, none_before), h)
Finds-cons v4 last addr addrs (fallback o) other (h, e) = ((other, h), e)

-- The loop over the addresses ends with the first one of the preferred family, or, where none is
-- of that family, with the last one of the list as the fallback.
pub search_ips-Finds :
    (v4 : Bool) (last : Option IpAddr) (addrs : List IpAddr)
    → Finds v4 last addrs (search_ips v4 last addrs)
unfolding search_ips
search_ips-Finds v4 last [] = (tt, refl)
search_ips-Finds v4 last (addr ∷ addrs) = elim (Bool-cases (is_wanted v4 addr)) [
  | inl hit ↦ rw hit ([], addrs, refl, tt, hit)
  | inr miss ↦
      rw miss (Finds-cons v4 last addr addrs _ miss (search_ips-Finds v4 (some addr) addrs))
]

last_of-wanted :
    (v4 : Bool) (last : Option IpAddr) (addrs : List IpAddr) (a : IpAddr)
    → All (λ x. is_wanted v4 x ≡ false) addrs
    → (last ≡ none)
    → some a ≡ last_of last addrs
    → is_wanted v4 a ≡ false
last_of-wanted v4 last [] a h e same = cc
last_of-wanted v4 last (x ∷ []) a (h, _) e same = ground arith
last_of-wanted v4 last (x ∷ y ∷ addrs) a (h, hs) e same =
    last_of-wanted v4 none (y ∷ addrs) a hs refl same

is_v4_of_wanted : (v4 : Bool) (a : IpAddr) → is_wanted v4 a ≡ true → is_v4 a.ip ≡ v4
is_v4_of_wanted true a h = h
is_v4_of_wanted false a h = ground arith

is_v4_of_other : (v4 : Bool) (a : IpAddr) → is_wanted v4 a ≡ false → is_v4 a.ip ≡ not v4
is_v4_of_other true a h = h
is_v4_of_other false a h = ground arith

module _ (fl : Float64) where
  open fl use {Num, of_int, add}

  -- The gauges show the family and the hash of the address.
  pub record IsReported (addr : IpAddr) (reg : Registry Num) : Type 0 where
    pub protocol :
        value_of "probe_ip_protocol" [] reg ≡ some (of_int (pos (if is_v4 addr.ip then 4 else 6)))
    pub hash : value_of "probe_ip_addr_hash" [] reg ≡ some (of_int (pos (ip_hash addr.ip)))

  -- The resolution ends without a panic; an address comes with its gauges and without an error,
  -- and the time is the one that was measured. With `strict` one of the two is always there.
  abbrev pub Resolves : (strict : Bool) → Num → Outcome Num (Chosen Num) → Type 0
  Resolves strict time panic = ⊥
  Resolves strict time (done out reg) =
      ((addr : IpAddr) → out.ip ≡ some addr → IsReported addr reg × (out.err ≡ none))
      × (strict ≡ true → out.ip ≡ none → out.err ≢ none)
      × (out.lookup_time ≡ time)

  abbrev Ends : IpAddr → Outcome Num (Unit {0}) → Type 0
  Ends a panic = ⊥
  Ends a (done _ reg) = IsReported a reg

  -- The deferred function, after the rest.
  abbrev with_time : Num → Outcome Num (Chosen Num) → Outcome Num (Chosen Num)
  with_time time o =
      and_then o
        λ out. do add_gauge add (of_int (pos 0)) "probe_dns_lookup_time_seconds" [] time; return out

  report_ip-IsReported :
      (v4 : Bool) (addr a : IpAddr) (reg : Registry Num)
      → is_v4 addr.ip ≡ v4
      → some addr ≡ some a
      → Ends a (report_ip fl v4 addr.ip reg)
  report_ip-IsReported v4 addr a reg h e =
      let same : addr ≡ a = ground arith in rw (← same) (record { protocol = rw h; hash = refl })

  choose_only-Resolves :
      (v4 : Bool) (time : Num) (l : Lookup Ip) (reg : Registry Num)
      → ((ips : List Ip) → l ≡ found ips → All (λ ip. is_v4 ip ≡ v4) ips)
      → Resolves false time (choose_only fl v4 time l reg)
  choose_only-Resolves v4 time (lookup_error e) reg h = (λ addr same. cc, λ no_strict. cc, refl)
  choose_only-Resolves v4 time (found []) reg h = (λ addr same. cc, λ no_strict. cc, refl)
  choose_only-Resolves v4 time (found (ip ∷ ips)) reg h = (
    λ addr same. (
      report_ip-IsReported v4 (record { ip = ip; zone = "" }) addr reg (h (ip ∷ ips) refl).0 same,
      refl,
    ),
    λ no_strict. cc,
    refl,
  )

  finish_search-Resolves :
      (v4 : Bool) (time : Num) (addrs : List IpAddr) (s : Search) (reg : Registry Num)
      → Finds v4 none addrs s
      → Resolves true time (finish_search fl v4 time s reg)
  finish_search-Resolves v4 time addrs (wanted addr) reg (_, _, _, _, h) = (
    λ a same. (report_ip-IsReported v4 addr a reg (is_v4_of_wanted v4 addr h) same, refl),
    λ _ e. cc,
    refl,
  )
  finish_search-Resolves v4 time addrs (fallback none) reg h = (λ a e. cc, λ _ _ e. cc, refl)
  finish_search-Resolves v4 time addrs (fallback (some addr)) reg (h, e) = (
    λ a same. (
      report_ip-IsReported (not v4) addr a reg
          (is_v4_of_other v4 addr (last_of-wanted v4 none addrs addr h refl e)) same,
      refl,
    ),
    λ _ n. cc,
    refl,
  )

  choose_with_fallback-Resolves :
      (v4 : Bool) (time : Num) (l : Lookup IpAddr) (reg : Registry Num)
      → Resolves true time (choose_with_fallback fl v4 time l reg)
  choose_with_fallback-Resolves v4 time (lookup_error e) reg = (λ a n. cc, λ _ _ n. cc, refl)
  choose_with_fallback-Resolves v4 time (found addrs) reg =
      finish_search-Resolves v4 time addrs _ reg (search_ips-Finds v4 none addrs)

  add_time-Resolves :
      (strict : Bool) (time : Num) (o : Outcome Num (Chosen Num))
      → Resolves strict time o
      → Resolves strict time (with_time time o)
  add_time-Resolves strict time panic h = h
  add_time-Resolves strict time (done out reg) (report, err, same) = (
    λ a e.
        (record { protocol = (report a e).0.protocol; hash = (report a e).0.hash }, (report a e).1),
    err,
    same,
  )

  abbrev wants_v4 : String → Bool
  wants_v4 ip_protocol = not (str_eq ip_protocol "ip6" || str_eq ip_protocol "")

  abbrev resolve_metrics : List String → List String
  resolve_metrics names =
      "probe_ip_addr_hash" ∷ "probe_dns_lookup_time_seconds" ∷ "probe_ip_protocol" ∷ names

  choose_protocol_lem :
      (net : Resolver) (time : Num) (ip_protocol : String) (ip_protocol_fallback : Bool)
      (target : String) (reg : Registry Num)
      → contains "probe_ip_protocol" reg.registered ≡ false
      → contains "probe_dns_lookup_time_seconds" reg.registered ≡ false
      → contains "probe_ip_addr_hash" reg.registered ≡ false
      → choose_protocol fl net time ip_protocol ip_protocol_fallback target reg
        ≡ with_time time (
            (if not ip_protocol_fallback
                then choose_only fl
                    (wants_v4 ip_protocol)
                    time
                    (net.lookup_ip (ip4_or_ip6 fl (wants_v4 ip_protocol)) target)
                else choose_with_fallback fl
                    (wants_v4 ip_protocol)
                    time
                    (net.lookup_ip_addr target))
              (record reg { registered = resolve_metrics reg.registered }))
  unfolding choose_protocol
  choose_protocol_lem net time ip_protocol fb target reg p q r = rw (p, q, r)

  -- Where the three metrics are not registered yet, and `LookupIP` returns addresses of the family
  -- that it is asked for, `chooseProtocol` does not panic and returns the lookup time. With an
  -- address the error is nil, and the gauges show the address's own family, 4 or 6, and its hash;
  -- with the fallback allowed there is always an address or an error.
  pub choose_protocol-Resolves :
      (net : Resolver) (time : Num) (ip_protocol : String) (ip_protocol_fallback : Bool)
      (target : String) (reg : Registry Num)
      → ((v4 : Bool) (ips : List Ip)
          → net.lookup_ip (ip4_or_ip6 fl v4) target ≡ found ips
          → All (λ ip. is_v4 ip ≡ v4) ips)
      → contains "probe_ip_protocol" reg.registered ≡ false
      → contains "probe_dns_lookup_time_seconds" reg.registered ≡ false
      → contains "probe_ip_addr_hash" reg.registered ≡ false
      → Resolves ip_protocol_fallback time
          (choose_protocol fl net time ip_protocol ip_protocol_fallback target reg)
  choose_protocol-Resolves net time ip_protocol true target reg h p q r =
      rw (choose_protocol_lem net time ip_protocol true target reg p q r) (
        add_time-Resolves true time _
          (choose_with_fallback-Resolves _ time (net.lookup_ip_addr target) _))
  choose_protocol-Resolves net time ip_protocol false target reg h p q r =
      rw (choose_protocol_lem net time ip_protocol false target reg p q r)
        (add_time-Resolves false time _ (choose_only-Resolves _ time _ _ (h _)))
