-- ===== src/Protocol/Tests.antt =====
-- The resolution of a target over a resolver that knows one host.
use big_blackbox_exporter.Base.{refl, true, [], ◌∷◌}
use big_blackbox_exporter.Base.Int.{pos}
use big_blackbox_exporter.Float64.Millis.{millis}
use big_blackbox_exporter.Ip.{Ip, IpAddr}
use big_blackbox_exporter.Metrics.{new_registry}
use big_blackbox_exporter.Protocol.{found, lookup_error, Resolver, choose_protocol}
use big_blackbox_exporter.Protocol.Choice.{Resolves, choose_protocol-Resolves}

abbrev v6 : Ip
v6 = 32 ∷ 1 ∷ 0 ∷ 0 ∷ 0 ∷ 0 ∷ 0 ∷ 0 ∷ 0 ∷ 0 ∷ 0 ∷ 0 ∷ 0 ∷ 0 ∷ 0 ∷ 1 ∷ []

abbrev addr : Ip → IpAddr
addr ip = record { ip = ip; zone = "" }

abbrev net : Resolver
net = record {
  lookup_ip = λ network host. lookup_error "no such host";
  lookup_ip_addr = λ host. found (addr v6 ∷ addr (10 ∷ 0 ∷ 0 ∷ 1 ∷ []) ∷ []);
}

choose_protocol-Resolves_example :
    Resolves millis true (pos 7) (choose_protocol millis net (pos 7) "ip4" true "host" new_registry)
choose_protocol-Resolves_example =
    choose_protocol-Resolves millis net (pos 7) "ip4" true "host" new_registry (λ v4 ips e. cc) refl
      refl refl
