-- ===== src/Ip/Tests.antt =====
-- The hash of 10.0.0.1 in its two forms.
use big_blackbox_exporter.Base.{◌^◌, ◌<◌, ◌≡◌, refl, [], ◌∷◌, ◌++◌}
use big_blackbox_exporter.Ip.{Ip, v4_prefix, fnv32a, offset32, ip_hash}
use big_blackbox_exporter.Ip.Hash.{ip_hash-mapped}

abbrev address : Ip
address = 10 ∷ 0 ∷ 0 ∷ 1 ∷ []

abbrev address_v6 : Ip
address_v6 = 32 ∷ 1 ∷ 13 ∷ 184 ∷ 0 ∷ 0 ∷ 0 ∷ 0 ∷ 0 ∷ 0 ∷ 0 ∷ 0 ∷ 0 ∷ 0 ∷ 0 ∷ 1 ∷ []

ip_hash-mapped_example :
    (ip_hash address ≡ fnv32a offset32 address)
    × (ip_hash (v4_prefix ++ address) ≡ fnv32a offset32 address)
    × (ip_hash address_v6 ≡ fnv32a offset32 address_v6)
    × (ip_hash address < 2 ^ 32)
ip_hash-mapped_example = ip_hash-mapped address address_v6 address refl (refl, refl)
